-- ===== src/Asym/Keys/Settling.antt =====
-- `asym.generateKeys` comes to one answer of its callbacks.
use crypto_security_projects.Base.{true, List, ◌≡◌}
use crypto_security_projects.Config.{Browser}
use crypto_security_projects.Runtime.{Arg, Run, Failure}
use crypto_security_projects.Runtime.Settling.{Answers, Settles}
use crypto_security_projects.WebCrypto.{Crypto, Json, KeyData}
use crypto_security_projects.Internal.Sym.Settling.{call-Settles}
use crypto_security_projects.Internal.Asym.Jwk as Internal
use crypto_security_projects.Internal.Asym.Jwk.Settling.{
  Ends, import_key-Settles, export_key-Settles,
}
use crypto_security_projects.Asym.Keys.{
  RsaKeys, Generated, generate_encrypt_key, generate_sign_key, generate_keys, import_encrypt_key,
}

module _ (browser : Browser) (promises : browser.has_then ≡ true) (json : Json) (ends : Ends json)
    (crypto : Crypto) {E : Type 0} where
  open crypto use {Key}

  pub import_encrypt_key-Settles :
      (public_jwk private_jwk : KeyData) (e : Failure Key E) (k : RsaKeys Key → Run Key E)
      → ((args : List Arg) → Answers (e args))
      → ((a : RsaKeys Key) → Settles (k a))
      → Settles (import_encrypt_key browser json crypto public_jwk private_jwk e k)
  unfolding import_encrypt_key Internal.import_encrypt_key
  import_encrypt_key-Settles public_jwk private_jwk e k ea ks =
      import_key-Settles browser promises json ends crypto private_jwk _ _ _ _ (λ args. ea _)
        λ private_key.
          import_key-Settles browser promises json ends crypto public_jwk _ _ _ _ (λ args. ea _)
            λ public_key. ks _

  generate_encrypt_key-Settles :
      (e : Failure Key E) (k : RsaKeys Key → Run Key E)
      → ((args : List Arg) → Answers (e args))
      → ((a : RsaKeys Key) → Settles (k a))
      → Settles (generate_encrypt_key browser json crypto e k)
  unfolding generate_encrypt_key Internal.generate_encrypt_keys Internal.import_encrypt_key
  generate_encrypt_key-Settles e k ea ks =
      call-Settles browser promises crypto _ _ _ (λ args. ea _)
        λ keys.
          export_key-Settles browser promises json ends crypto keys.public_key _ _ _ (λ args. ea _)
            λ public_jwk.
              export_key-Settles browser promises json ends crypto keys.private_key _ _ _
                (λ args. ea _)
                λ private_jwk.
                  import_key-Settles browser promises json ends crypto private_jwk _ _ _ _
                    (λ args. ea _) λ private_key. ks _

  generate_sign_key-Settles :
      (e : Failure Key E) (k : RsaKeys Key → Run Key E)
      → ((args : List Arg) → Answers (e args))
      → ((a : RsaKeys Key) → Settles (k a))
      → Settles (generate_sign_key browser json crypto e k)
  unfolding generate_sign_key Internal.generate_sign_keys Internal.import_sign_key
  generate_sign_key-Settles e k ea ks =
      call-Settles browser promises crypto _ _ _ (λ args. ea _)
        λ keys.
          export_key-Settles browser promises json ends crypto keys.public_key _ _ _ (λ args. ea _)
            λ public_jwk.
              export_key-Settles browser promises json ends crypto keys.private_key _ _ _
                (λ args. ea _)
                λ private_jwk.
                  import_key-Settles browser promises json ends crypto private_jwk _ _ _ _
                    (λ args. ea _) λ private_key. ks _

  -- With promises, and a `JSON.parse` that ends, `generateKeys` ends, whatever the browser does, old
  -- browsers included. For an `onError`
  -- that always shows one event and does not throw, and an `onSuccess` that shows one event, or throws
  -- before it shows any, the run shows exactly one event of theirs, or it throws and shows none.
  pub asym_generate_keys-Settles :
      (e : Failure Key E) (k : Generated Key → Run Key E)
      → ((args : List Arg) → Answers (e args))
      → ((a : Generated Key) → Settles (k a))
      → Settles (generate_keys browser json crypto e k)
  unfolding generate_keys
  asym_generate_keys-Settles e k ea ks =
      generate_encrypt_key-Settles e _ ea
        λ encrypt_key. generate_sign_key-Settles e _ ea λ sign_key. ks _
