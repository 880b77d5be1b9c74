-- ===== src/Sym/Password.antt =====
-- `sym.encryptWithPassword` and `sym.decryptWithPassword` of simplecrypto.js.
pub mod Stored
pub mod RoundTrip
use crypto_security_projects.Base.{ℕ, ◌-◌, ◌/◌, List, Option, some, none, length, min}
use crypto_security_projects.Js.{Source, undefined, array_buffer, uint8_array}
use crypto_security_projects.Config.{Browser, aes_length}
use crypto_security_projects.Runtime.{Run, Failure, Keys, bind, allocate}
use crypto_security_projects.WebCrypto.{Crypto}
use crypto_security_projects.Internal.Pbkdf2.{Options, Derived, Count, missing, held}
use crypto_security_projects.Pbkdf2.{derive}
use crypto_security_projects.Sym.{Encrypted, encrypt, decrypt}

-- `{aesEncrypted, hmac, pbkdf2_salt, pbkdf2_iter}`
pub record WithPassword : Type 0 where
  pub encrypted : Encrypted
  pub pbkdf2_salt : Source
  pub pbkdf2_iter : Source

-- `{aesKey, hmacKey}`, the two parts of the derived bytes. `subarray` stops at the end.
abbrev pub split_keys : {K : Type 0} → List ℕ → Keys K
split_keys derived =
    let first = min (aes_length / 8) (length derived) in
    record {
      aes_key = some (uint8_array derived 0 first);
      hmac_key = some (uint8_array derived first (length derived - first));
      aes_key_obj = none;
      hmac_key_obj = none;
      iv = none;
    }

-- A property that is missing is an option that is missing.
abbrev pub salt_option : Source → Option Source
salt_option undefined = none
salt_option source = some source

abbrev pub count_option : Source → Count
count_option undefined = missing
count_option source = held source

module _ (browser : Browser) (crypto : Crypto) {E : Type 0} where
  open crypto use {Key}

  unfoldable pub encrypt_with_password :
      List ℕ → Source → Failure Key E → (WithPassword → Run Key E) → Run Key E
  encrypt_with_password password message on_error on_success =
      derive browser crypto password 288 (record { salt = none; iterations = missing })
        (bind on_error "PBKDF2 error")
        λ pbkdf2. allocate (split_keys pbkdf2.derived) λ keys.
          encrypt browser crypto keys message on_error λ encrypted. on_success (record {
            encrypted = encrypted;
            pbkdf2_salt = pbkdf2.salt;
            pbkdf2_iter = array_buffer pbkdf2.iterations;
          })

  unfoldable pub decrypt_with_password :
      List ℕ → WithPassword → Failure Key E → (List ℕ → Run Key E) → Run Key E
  decrypt_with_password password sealed on_error on_success =
      derive browser crypto password 288
        (record {
          salt = salt_option sealed.pbkdf2_salt;
          iterations = count_option sealed.pbkdf2_iter;
        })
        (bind on_error "PBKDF2 error")
        λ pbkdf2.
          allocate (split_keys pbkdf2.derived)
            λ keys. decrypt browser crypto keys sealed.encrypted on_error on_success
