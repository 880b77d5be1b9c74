-- ===== src/Asym/Signed.antt =====
-- What `asym.verifyAndDecrypt` takes.
use crypto_security_projects.Base.{
  ℕ, suc, ◌≤◌, ◌≡◌, ◌∙◌, ap, true, arith, List, ◌++◌, Option, none, some, length, length-append,
  take-length,
}
use crypto_security_projects.Js.{Source, array_buffer, bytes, fresh}
use crypto_security_projects.Config.{Browser, hmac_options_length}
use crypto_security_projects.Runtime.{Page, Run, resolve, bind, tick}
use crypto_security_projects.Runtime.Delivery.{Delivers}
use crypto_security_projects.WebCrypto.{Crypto, rsa_oaep, rsa_pkcs1}
use crypto_security_projects.WebCrypto.Laws.{Interop, Generation, RsaInterop}
use crypto_security_projects.Internal.Sym.Steps.{call_then}
use crypto_security_projects.Internal.Asym.{Extended, aes_decrypt, verify_signature}
use crypto_security_projects.Internal.Asym as Internal
use crypto_security_projects.Internal.Asym.Open.{aes_decrypt-Openable}
use crypto_security_projects.Sym.{Encrypted, property}
use crypto_security_projects.Sym.Open.{Openable}
use crypto_security_projects.Asym.{Message, aes_part, verify_and_decrypt}

module _ (browser : Browser) (crypto : Crypto) (laws : Interop crypto (hmac_options_length browser))
    (generation : Generation crypto (hmac_options_length browser)) (rsa : RsaInterop crypto) where
  open crypto use {Key}

  -- The message without signatures.
  abbrev pub unsigned : List ℕ → Encrypted → Message
  unsigned cipher encrypted = record {
    rsa_encrypted = array_buffer cipher;
    aes_encrypted = some encrypted.aes_encrypted;
    hmac = some encrypted.hmac;
    signature_of_data = none;
    signature_of_encrypted = none;
  }

  abbrev pub signed : List ℕ → Encrypted → List ℕ → List ℕ → Message
  signed cipher encrypted of_data of_encrypted = record (unsigned cipher encrypted) {
    signature_of_data = some (array_buffer of_data);
    signature_of_encrypted = some (array_buffer of_encrypted);
  }

  -- The combined keys are short enough for RSA.
  pub combined_fits :
      (aes hmac : List ℕ)
      → length aes ≡ 16
      → length hmac ≡ 20
      → length (bytes (fresh (aes ++ hmac))) ≤ 214
  combined_fits aes hmac h k =
      omega (arith, ap length (take-length (aes ++ hmac)), length-append aes hmac)

  -- `aesDecrypt` of the keys that RSA decryption gives back.
  pub open_combined :
      {E : Type 0} (p : Page Key E) (aes hmac message : List ℕ) (encrypted : Encrypted)
      → length aes ≡ 16
      → length hmac ≡ 20
      → Openable browser crypto laws encrypted aes hmac message
      → (q : Page Key E) × Delivers
          (aes_decrypt browser crypto (array_buffer (bytes (fresh (aes ++ hmac)))) encrypted)
          p
          message
          q
  open_combined {E} p aes hmac message encrypted h k openable =
      let (q, opens) =
        aes_decrypt-Openable browser crypto laws p aes hmac message encrypted h k openable in
      (
        q,
        λ e on_success quiet.
            ap
              (λ (bs : List ℕ).
                aes_decrypt browser crypto (array_buffer bs) encrypted e on_success p)
              (take-length (aes ++ hmac))
            ∙ opens e on_success quiet,
      )

  -- A message that `verifyAndDecrypt` can open with the two keys: what RSA gives back is the
  -- combined keys, both signatures are right, and the combined keys open the rest.
  pub record Signed (private_key verify_key : Key) (dict : Message) (message : List ℕ)
      : Type 0 where
    pub aes : List ℕ
    pub hmac : List ℕ
    pub aes_sized : length aes ≡ 16
    pub hmac_sized : length hmac ≡ 20
    pub aes_encrypted : Source
    pub extended : dict.aes_encrypted ≡ some aes_encrypted
    pub decrypts :
        (u : ℕ)
        → crypto.decrypt u rsa_oaep private_key dict.rsa_encrypted
          ≡ resolve (bytes (fresh (aes ++ hmac)))
    pub verifies_data :
        (u : ℕ)
        → crypto.verify u rsa_pkcs1 verify_key
            (property dict.signature_of_data)
            (array_buffer (bytes (fresh (aes ++ hmac))))
          ≡ resolve true
    pub verifies_encrypted :
        (u : ℕ)
        → crypto.verify u rsa_pkcs1 verify_key
            (property dict.signature_of_encrypted)
            dict.rsa_encrypted
          ≡ resolve true
    pub openable : Openable browser crypto laws (aes_part aes_encrypted dict) aes hmac message

  pub verify_and_decrypt-Signed :
      {E : Type 0} (private_key verify_key : Key) (dict : Message) (message : List ℕ)
      (r : Page Key E)
      → Signed private_key verify_key dict message
      → (s : Page Key E) × Delivers
          (verify_and_decrypt browser crypto private_key verify_key dict)
          r
          message
          s
  unfolding verify_and_decrypt Internal.decrypt verify_signature
  verify_and_decrypt-Signed {E} private_key verify_key dict message r made =
      let (s, opens) =
        open_combined (tick (tick (tick r))) made.aes made.hmac message
          (aes_part made.aes_encrypted dict) made.aes_sized made.hmac_sized made.openable in
      let combined = bytes (fresh (made.aes ++ made.hmac)) in
      (
        s,
        λ e k quiet.
            let rest : Option Source → Run Key E = λ o. elim o [
              | some a ↦ aes_decrypt browser crypto (array_buffer combined) (aes_part a dict) e k
              | none ↦ k combined
            ] in
            call_then browser crypto _ (bind e "Could not verify encrypted keys") _ r
              (made.verifies_encrypted r.clock)
              (call_then browser crypto _ (bind e "Could not decrypt keys") _ (tick r)
                (made.decrypts (suc r.clock))
                (call_then browser crypto _ (bind e "Could not verify keys") _ (tick (tick r))
                  (made.verifies_data (suc (suc r.clock)))
                  (ap (λ (o : Option Source). rest o (tick (tick (tick r)))) made.extended
                    ∙ opens e k quiet)
                  quiet)
                quiet)
              quiet,
      )
