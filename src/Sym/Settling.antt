-- ===== src/Sym/Settling.antt =====
-- The operations of `simpleCrypto.sym` come to one answer of their callbacks.
use crypto_security_projects.Base.{ℕ, true, List, [], ◌∷◌, ◌≡◌, ◌&&◌, Option-cases, inl, inr}
use crypto_security_projects.Js.{Source}
use crypto_security_projects.Config.{Browser}
use crypto_security_projects.Runtime.{Arg, label, Run, Failure, Keys}
use crypto_security_projects.Runtime.Settling.{
  Answers, Settles, if-Settles, ask-Settles, load-Settles, save-Settles, allocate-Settles,
  Answers-Settles,
}
use crypto_security_projects.WebCrypto.{Crypto}
use crypto_security_projects.Internal.Sym.{
  import_key_aes, import_key_hmac, export_key, generate_key_aes, generate_key_hmac, sign_hmac,
}
use crypto_security_projects.Internal.Sym.Settling as Steps
use crypto_security_projects.Internal.Sym.Settling.{call-Settles}
use crypto_security_projects.Sym.{
  Encrypted, has, import_raw_keys, import_keys, choose_iv, encrypt, decrypt, generate_keys,
  gen_keys_and_encrypt,
}

module _ (browser : Browser) (promises : browser.has_then ≡ true) (crypto : Crypto)
    {E : Type 0} where
  open crypto use {Key}

  import_raw_keys-Settles :
      (keys : ℕ) (object : Keys Key) (e : Failure Key E) (k : Run Key E)
      → ((args : List Arg) → Answers (e args))
      → Settles k
      → Settles (import_raw_keys browser crypto keys object e k)
  unfolding import_raw_keys import_key_aes import_key_hmac
  import_raw_keys-Settles keys object e k ea ks =
      call-Settles browser promises crypto _ _ _ (λ args. ea _)
        λ aes_obj. load-Settles keys _ λ before_aes. save-Settles keys _ _ (
          load-Settles keys _ λ with_aes.
            call-Settles browser promises crypto _ _ _ (λ args. ea _)
              λ hmac_obj. load-Settles keys _ λ before_hmac. save-Settles keys _ k ks)

  pub import_keys-Settles :
      (keys : ℕ) (e : Failure Key E) (k : Run Key E)
      → ((args : List Arg) → Answers (e args))
      → Settles k
      → Settles (import_keys browser crypto keys e k)
  unfolding import_keys
  import_keys-Settles keys e k ea ks = load-Settles keys _ λ object.
      if-Settles (has object.aes_key_obj && has object.hmac_key_obj) k _ ks (
        if-Settles (has object.aes_key && has object.hmac_key) _ (e (label "Missing keys" ∷ []))
          (import_raw_keys-Settles keys object e k ea ks)
          (Answers-Settles (e (label "Missing keys" ∷ [])) (ea _)))

  choose_iv-Settles :
      (object : Keys Key) (k : Source → Run Key E)
      → ((iv : Source) → Settles (k iv))
      → Settles (choose_iv browser crypto object k)
  unfolding choose_iv
  choose_iv-Settles object k ks = elim (Option-cases object.iv) [
    | inl missing ↦ λ p. rw (choose_iv, missing) (ask-Settles _ k ks p)
    | inr (iv, given) ↦ λ p. rw (choose_iv, given) (ks iv p)
  ]

  -- With promises, `encrypt` ends, whatever the browser does. For an `onError`
  -- that always shows one event and does not throw, and an `onSuccess` that shows one event, or throws
  -- before it shows any, the run shows exactly one event of theirs, or it throws and shows none.
  pub encrypt-Settles :
      (keys : ℕ) (message : Source) (e : Failure Key E) (k : Encrypted → Run Key E)
      → ((args : List Arg) → Answers (e args))
      → ((a : Encrypted) → Settles (k a))
      → Settles (encrypt browser crypto keys message e k)
  unfolding encrypt sign_hmac
  encrypt-Settles keys message e k ea ks = import_keys-Settles keys e _ ea (
      load-Settles keys _ λ object. choose_iv-Settles object _ λ iv.
        Steps.encrypt-Settles browser promises crypto object.aes_key_obj iv message _ _
          (λ args. ea _)
          λ aes_encrypted.
            load-Settles keys _
              λ later. call-Settles browser promises crypto _ _ _ (λ args. ea _) λ mac. ks _)

  -- With promises, `decrypt` ends, whatever the browser does and on any ciphertext. For an `onError`
  -- that always shows one event and does not throw, and an `onSuccess` that shows one event, or throws
  -- before it shows any, the run shows exactly one event of theirs, or it throws and shows none.
  pub decrypt-Settles :
      (keys : ℕ) (encrypted : Encrypted) (e : Failure Key E) (k : List ℕ → Run Key E)
      → ((args : List Arg) → Answers (e args))
      → ((a : List ℕ) → Settles (k a))
      → Settles (decrypt browser crypto keys encrypted e k)
  unfolding decrypt
  decrypt-Settles keys encrypted e k ea ks = import_keys-Settles keys e _ ea (
      load-Settles keys _ λ object.
        Steps.verify_hmac-Settles browser promises crypto object.hmac_key_obj _ _ _ _ (λ args. ea _)
          (load-Settles keys _ λ later.
            Steps.decrypt_aes-Settles browser promises crypto later.aes_key_obj _ _ k (λ args. ea _)
              ks))

  pub generate_keys-Settles :
      (e : Failure Key E) (k : ℕ → Run Key E)
      → ((args : List Arg) → Answers (e args))
      → ((keys : ℕ) → Settles (k keys))
      → Settles (generate_keys browser crypto e k)
  unfolding generate_keys generate_key_aes generate_key_hmac export_key import_key_aes
      import_key_hmac
  generate_keys-Settles e k ea ks =
      call-Settles browser promises crypto _ _ _ (λ args. ea _)
        λ aes.
          call-Settles browser promises crypto _ _ _ (λ args. ea _)
            λ hmac.
              call-Settles browser promises crypto _ _ _ (λ args. ea _)
                λ aes_key.
                  call-Settles browser promises crypto _ _ _ (λ args. ea _)
                    λ hmac_key.
                      call-Settles browser promises crypto _ _ _ (λ args. ea _)
                        λ aes_obj.
                          call-Settles browser promises crypto _ _ _ (λ args. ea _)
                            λ hmac_obj. allocate-Settles _ k ks

  -- With promises, `genKeysAndEncrypt` ends, whatever the browser does. For an `onError`
  -- that always shows one event and does not throw, and an `onSuccess` that shows one event, or throws
  -- before it shows any, the run shows exactly one event of theirs, or it throws and shows none.
  pub gen_keys_and_encrypt-Settles :
      (message : Source) (e : Failure Key E) (k : ℕ → Encrypted → Run Key E)
      → ((args : List Arg) → Answers (e args))
      → ((keys : ℕ) (a : Encrypted) → Settles (k keys a))
      → Settles (gen_keys_and_encrypt browser crypto message e k)
  unfolding gen_keys_and_encrypt
  gen_keys_and_encrypt-Settles message e k ea ks =
      generate_keys-Settles e _ ea λ keys. encrypt-Settles keys message e (k keys) ea (ks keys)
