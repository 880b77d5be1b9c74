-- ===== src/Asym/Settling.antt =====
-- The operations of `simpleCrypto.asym` on messages come to one answer of their callbacks.
use crypto_security_projects.Base.{ℕ, true, List, ◌≡◌}
use crypto_security_projects.Js.{Source, array_buffer}
use crypto_security_projects.Config.{Browser}
use crypto_security_projects.Runtime.{Arg, Run, Failure}
use crypto_security_projects.Runtime.Settling.{Answers, Settles, Option-Settles}
use crypto_security_projects.WebCrypto.{Crypto}
use crypto_security_projects.Internal.Sym.Settling.{call-Settles}
use crypto_security_projects.Internal.Asym as Internal
use crypto_security_projects.Internal.Asym.Settling.{
  aes_decrypt-Settles, extend_data-Settles, verify_signature-Settles,
}
use crypto_security_projects.Asym.{Message, encrypt, decrypt, encrypt_and_sign, verify_and_decrypt}

module _ (browser : Browser) (promises : browser.has_then ≡ true) (crypto : Crypto)
    {E : Type 0} where
  open crypto use {Key}

  pub encrypt-Settles :
      (key : Key) (message : Source) (e : Failure Key E) (k : Message → Run Key E)
      → ((args : List Arg) → Answers (e args))
      → ((a : Message) → Settles (k a))
      → Settles (encrypt browser crypto key message e k)
  unfolding encrypt Internal.encrypt
  encrypt-Settles key message e k ea ks =
      extend_data-Settles browser promises crypto message e _ ea
        λ extended was_extended. call-Settles browser promises crypto _ e _ ea λ encrypted. ks _

  -- With promises, `encryptAndSign` ends, whatever the browser does. For an `onError`
  -- that always shows one event and does not throw, and an `onSuccess` that shows one event, or throws
  -- before it shows any, the run shows exactly one event of theirs, or it throws and shows none.
  pub encrypt_and_sign-Settles :
      (encrypt_key sign_key : Key) (message : Source) (e : Failure Key E) (k : Message → Run Key E)
      → ((args : List Arg) → Answers (e args))
      → ((a : Message) → Settles (k a))
      → Settles (encrypt_and_sign browser crypto encrypt_key sign_key message e k)
  unfolding encrypt_and_sign Internal.encrypt Internal.sign
  encrypt_and_sign-Settles encrypt_key sign_key message e k ea ks =
      extend_data-Settles browser promises crypto message e _ ea λ extended was_extended.
        call-Settles browser promises crypto _ e _ ea λ encrypted.
          call-Settles browser promises crypto _ _ _ (λ args. ea _)
            λ of_data.
              call-Settles browser promises crypto _ _ _ (λ args. ea _) λ of_encrypted. ks _

  pub decrypt-Settles :
      (key : Key) (dict : Message) (e : Failure Key E) (k : List ℕ → Run Key E)
      → ((args : List Arg) → Answers (e args))
      → ((a : List ℕ) → Settles (k a))
      → Settles (decrypt browser crypto key dict e k)
  unfolding decrypt Internal.decrypt
  decrypt-Settles key dict e k ea ks =
      Option-Settles dict.aes_encrypted _ _
        (call-Settles browser promises crypto _ _ k (λ args. ea _) ks)
        λ aes_encrypted.
          call-Settles browser promises crypto _ _ _ (λ args. ea _)
            λ combined.
              aes_decrypt-Settles browser promises crypto (array_buffer combined) _ e k ea ks

  -- With promises, `verifyAndDecrypt` ends, whatever the browser does and the message holds. For an `onError`
  -- that always shows one event and does not throw, and an `onSuccess` that shows one event, or throws
  -- before it shows any, the run shows exactly one event of theirs, or it throws and shows none.
  pub verify_and_decrypt-Settles :
      (decrypt_key verify_key : Key) (dict : Message) (e : Failure Key E) (k : List ℕ → Run Key E)
      → ((args : List Arg) → Answers (e args))
      → ((a : List ℕ) → Settles (k a))
      → Settles (verify_and_decrypt browser crypto decrypt_key verify_key dict e k)
  unfolding verify_and_decrypt Internal.decrypt
  verify_and_decrypt-Settles decrypt_key verify_key dict e k ea ks =
      verify_signature-Settles browser promises crypto verify_key _ _ _ _ (λ args. ea _)
        (call-Settles browser promises crypto _ _ _ (λ args. ea _)
          λ decrypted.
            verify_signature-Settles browser promises crypto verify_key _ _ _ _ (λ args. ea _)
              (Option-Settles dict.aes_encrypted _ _ (ks decrypted) λ aes_encrypted.
                aes_decrypt-Settles browser promises crypto (array_buffer decrypted) _ e k ea ks))
