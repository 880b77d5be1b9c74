-- ===== src/Asym.antt =====
-- `simpleCrypto.asym` of simplecrypto.js: RSA keys, and encryption and signatures of messages. A
-- message is encrypted with fresh AES and HMAC keys, and RSA encrypts these.
pub mod Keys
pub mod Signed
pub mod Made
pub mod RoundTrip
pub mod Forged
pub mod Settling
use crypto_security_projects.Base.{ℕ, Bool, true, false, List, Option, none, some, if◌then◌else◌}
use crypto_security_projects.Js.{Source, array_buffer}
use crypto_security_projects.Config.{Browser}
use crypto_security_projects.Runtime.{Run, Failure, bind}
use crypto_security_projects.WebCrypto.{Crypto}
use crypto_security_projects.Internal.Asym.{Extended, extend_data, aes_decrypt, verify_signature}
use crypto_security_projects.Internal.Asym as Internal
use crypto_security_projects.Sym.{Encrypted, property}

-- `{rsaEncrypted, aesEncrypted, hmac, signatureOfData, signatureOfEncrypted}`: what a message may
-- lack is `none`.
pub record Message : Type 0 where
  pub rsa_encrypted : Source
  pub aes_encrypted : Option Source
  pub hmac : Option Source
  pub signature_of_data : Option Source
  pub signature_of_encrypted : Option Source

-- The properties that `result["aesEncrypted"]` and `result["hmac"]` add, if the data was extended.
abbrev pub extra : Bool → Extended → (Encrypted → Source) → Option Source
extra false extended field = none
extra true extended field = elim extended.additional [ some e ↦ some (field e) | none ↦ none ]

-- The ciphertext of AES with its HMAC, as `aesDecrypt` takes them.
abbrev pub aes_part : Source → Message → Encrypted
aes_part aes_encrypted dict = record { aes_encrypted = aes_encrypted; hmac = property dict.hmac }

module _ (browser : Browser) (crypto : Crypto) {E : Type 0} where
  open crypto use {Key}

  unfoldable pub decrypt : Key → Message → Failure Key E → (List ℕ → Run Key E) → Run Key E
  decrypt decrypt_key dict on_error on_success = elim dict.aes_encrypted [
    | some aes_encrypted ↦
        Internal.decrypt browser crypto decrypt_key dict.rsa_encrypted
          (bind on_error "Could not decrypt keys")
          λ combined.
            aes_decrypt browser crypto (array_buffer combined) (aes_part aes_encrypted dict)
              on_error on_success
    | none ↦
        Internal.decrypt browser crypto decrypt_key dict.rsa_encrypted
          (bind on_error "Could not RSA decrypt") on_success
  ]

  unfoldable pub verify_and_decrypt :
      Key → Key → Message → Failure Key E → (List ℕ → Run Key E) → Run Key E
  verify_and_decrypt decrypt_key verify_key dict on_error on_success =
      verify_signature browser crypto verify_key (property dict.signature_of_encrypted)
        dict.rsa_encrypted (bind on_error "Could not verify encrypted keys")
        (Internal.decrypt browser crypto decrypt_key dict.rsa_encrypted
          (bind on_error "Could not decrypt keys")
          λ decrypted.
            verify_signature browser crypto verify_key (property dict.signature_of_data)
              (array_buffer decrypted) (bind on_error "Could not verify keys")
              (elim dict.aes_encrypted [
                | some aes_encrypted ↦
                    aes_decrypt browser crypto (array_buffer decrypted)
                      (aes_part aes_encrypted dict) on_error on_success
                | none ↦ on_success decrypted
              ]))

  unfoldable pub encrypt : Key → Source → Failure Key E → (Message → Run Key E) → Run Key E
  encrypt encrypt_key message on_error on_success =
      extend_data browser crypto message on_error λ extended was_extended.
        Internal.encrypt browser crypto encrypt_key extended.content on_error λ encrypted.
          on_success (record {
            rsa_encrypted = array_buffer encrypted;
            aes_encrypted = extra was_extended extended (λ e. e.aes_encrypted);
            hmac = extra was_extended extended (λ e. e.hmac);
            signature_of_data = none;
            signature_of_encrypted = none;
          })

  unfoldable pub encrypt_and_sign :
      Key → Key → Source → Failure Key E → (Message → Run Key E) → Run Key E
  encrypt_and_sign encrypt_key sign_key message on_error on_success =
      extend_data browser crypto message on_error λ extended was_extended.
        Internal.encrypt browser crypto encrypt_key extended.content on_error λ encrypted.
          Internal.sign browser crypto sign_key extended.content
            (bind on_error "Could not sign raw data")
            λ signature_of_data.
              Internal.sign browser crypto sign_key (array_buffer encrypted)
                (bind on_error "Could not sign encrypted data")
                λ signature_of_encrypted. on_success (record {
                  rsa_encrypted = array_buffer encrypted;
                  aes_encrypted = extra was_extended extended (λ e. e.aes_encrypted);
                  hmac = extra was_extended extended (λ e. e.hmac);
                  signature_of_data = some (array_buffer signature_of_data);
                  signature_of_encrypted = some (array_buffer signature_of_encrypted);
                })
