-- ===== src/Sym/Keeping.antt =====
-- `simpleCrypto.sym` changes no raw key: it writes key objects alone.
use crypto_security_projects.Base.{ℕ, some, List, [], ◌∷◌, refl, ◌&&◌, Option-cases, inl, inr}
use crypto_security_projects.Js.{Source, array_buffer}
use crypto_security_projects.Config.{Browser}
use crypto_security_projects.Runtime.{Arg, label, Run, Failure, Keys, Settled}
use crypto_security_projects.Runtime.Keeping.{
  Keeps, wrap-Keeps, attempt-Keeps, ask-Keeps, load-Keeps, if-Keeps, update-Keeps,
}
use crypto_security_projects.WebCrypto.{Crypto}
use crypto_security_projects.Util.{combine_arrays}
use crypto_security_projects.Internal.Sym.{
  call, split_iv, import_key_aes, import_key_hmac, sign_hmac, verify_hmac, decrypt_aes,
}
use crypto_security_projects.Internal.Sym as Internal
use crypto_security_projects.Sym.{
  Encrypted, has, import_raw_keys, import_keys, choose_iv, encrypt, decrypt,
}

module _ (browser : Browser) (crypto : Crypto) {E : Type 0} where
  open crypto use {Key}

  call-Keeps {ℓ} :
      {A : Type ℓ} (operation : ℕ → Settled A) (e : Failure Key E) (k : A → Run Key E)
      → ((args : List Arg) → Keeps (e args))
      → ((a : A) → Keeps (k a))
      → Keeps (call browser crypto operation e k)
  unfolding call
  call-Keeps operation e k ke kk =
      ask-Keeps operation _ λ settled. wrap-Keeps browser.has_then settled e k ke kk

  import_raw_keys-Keeps :
      (keys : ℕ) (object : Keys Key) (e : Failure Key E) (k : Run Key E)
      → ((args : List Arg) → Keeps (e args))
      → Keeps k
      → Keeps (import_raw_keys browser crypto keys object e k)
  unfolding import_raw_keys import_key_aes import_key_hmac
  import_raw_keys-Keeps keys object e k ke kk =
      call-Keeps _ _ _ (λ args. ke _)
        λ aes_obj.
          update-Keeps keys (λ before. record before { aes_key_obj = some aes_obj }) _
            (λ before. (refl, refl))
            (load-Keeps keys _ λ with_aes.
              call-Keeps _ _ _ (λ args. ke _)
                λ hmac_obj.
                  update-Keeps keys (λ before. record before { hmac_key_obj = some hmac_obj }) k
                    (λ before. (refl, refl)) kk)

  pub import_keys-Keeps :
      (keys : ℕ) (e : Failure Key E) (k : Run Key E)
      → ((args : List Arg) → Keeps (e args))
      → Keeps k
      → Keeps (import_keys browser crypto keys e k)
  unfolding import_keys
  import_keys-Keeps keys e k ke kk = load-Keeps keys _ λ object.
      if-Keeps (has object.aes_key_obj && has object.hmac_key_obj) k _ kk (
        if-Keeps (has object.aes_key && has object.hmac_key) _ (e (label "Missing keys" ∷ []))
          (import_raw_keys-Keeps keys object e k ke kk) (ke _))

  choose_iv-Keeps :
      (object : Keys Key) (k : Source → Run Key E)
      → ((iv : Source) → Keeps (k iv))
      → Keeps (choose_iv browser crypto object k)
  unfolding choose_iv
  choose_iv-Keeps object k kk = elim (Option-cases object.iv) [
    | inl missing ↦ λ p. rw (choose_iv, missing) (ask-Keeps _ k kk p)
    | inr (iv, given) ↦ λ p. rw (choose_iv, given) (kk iv p)
  ]

  -- `encrypt` changes no raw key of any object of the page, whatever the browser does, if its
  -- callbacks change none: it adds key objects alone.
  pub encrypt-Keeps :
      (keys : ℕ) (message : Source) (e : Failure Key E) (k : Encrypted → Run Key E)
      → ((args : List Arg) → Keeps (e args))
      → ((a : Encrypted) → Keeps (k a))
      → Keeps (encrypt browser crypto keys message e k)
  unfolding encrypt Internal.encrypt sign_hmac
  encrypt-Keeps keys message e k ke kk = import_keys-Keeps keys e _ ke (
      load-Keeps keys _ λ object. choose_iv-Keeps object _ λ iv.
        call-Keeps _ _ _ (λ args. ke _)
          λ encrypted.
            attempt-Keeps (combine_arrays iv (array_buffer encrypted)) _ λ aes_encrypted.
              load-Keeps keys _ λ later. call-Keeps _ _ _ (λ args. ke _) λ mac. kk _)

  -- `decrypt` changes no raw key of any object of the page, whatever the browser does and on any
  -- ciphertext, if its callbacks change none.
  pub decrypt-Keeps :
      (keys : ℕ) (encrypted : Encrypted) (e : Failure Key E) (k : List ℕ → Run Key E)
      → ((args : List Arg) → Keeps (e args))
      → ((a : List ℕ) → Keeps (k a))
      → Keeps (decrypt browser crypto keys encrypted e k)
  unfolding decrypt verify_hmac decrypt_aes
  decrypt-Keeps keys encrypted e k ke kk = import_keys-Keeps keys e _ ke (
      load-Keeps keys _ λ object.
        call-Keeps _ _ _ (λ args. ke _)
          λ valid.
            if-Keeps valid _ _
              (load-Keeps keys _ λ later.
                attempt-Keeps (split_iv encrypted.aes_encrypted) _
                  λ parts. call-Keeps _ _ k (λ args. ke _) kk)
              (ke _))
