-- ===== src/Sym.antt =====
-- `simpleCrypto.sym` of simplecrypto.js: authenticated encryption, AES-CBC with an HMAC of the
-- ciphertext. Keys are an object of the page, into which `importKeys` writes what it has imported.
pub mod Import
pub mod Seal
pub mod Open
pub mod RoundTrip
pub mod Fresh
pub mod Generate
pub mod Authenticity
pub mod Settling
pub mod Keeping
pub mod Password
use crypto_security_projects.Base.{
  ℕ, ◌+◌, ◌-◌, Bool, true, false, ◌&&◌, List, [], ◌∷◌, String, Option, none, some, length, ltb,
  if◌then◌else◌,
}
use crypto_security_projects.Js.{Exn, Source, array_buffer, undefined, fresh}
use crypto_security_projects.Config.{Browser, aes_iv_length}
use crypto_security_projects.Runtime.{
  Run, Failure, Arg, label, Keys, bind, ask, allocate, load, save,
}
use crypto_security_projects.WebCrypto.{Crypto}
use crypto_security_projects.Internal.Sym as Internal

-- `{aesEncrypted, hmac}`
pub record Encrypted : Type 0 where
  pub aes_encrypted : Source
  pub hmac : Source

-- A property that may be missing, read as a value.
abbrev pub property : Option Source → Source
property none = undefined
property (some value) = value

abbrev pub has {ℓ} : {A : Type ℓ} → Option A → Bool
has none = false
has (some _) = true

module _ (browser : Browser) (crypto : Crypto) {E : Type 0} where
  open crypto use {Key}

  -- The six steps are asked for one after the other.
  unfoldable pub generate_keys : Failure Key E → (ℕ → Run Key E) → Run Key E
  generate_keys on_error on_success =
      Internal.generate_key_aes browser crypto (bind on_error "Could not generate AES key") λ aes.
        Internal.generate_key_hmac browser crypto (bind on_error "Could not generate HMAC key")
          λ hmac.
            Internal.export_key browser crypto aes (bind on_error "Could not export AES key")
              λ aes_key.
                Internal.export_key browser crypto hmac (bind on_error "Could not export HMAC key")
                  λ hmac_key.
                    Internal.import_key_aes browser crypto (array_buffer aes_key)
                      (bind on_error "Could not import AES key")
                      λ aes_obj.
                        Internal.import_key_hmac browser crypto (array_buffer hmac_key)
                          (bind on_error "Could not import HMAC key")
                          λ hmac_obj.
                            allocate
                              (record {
                                aes_key = some (array_buffer aes_key);
                                hmac_key = some (array_buffer hmac_key);
                                aes_key_obj = some aes_obj;
                                hmac_key_obj = some hmac_obj;
                                iv = none;
                              })
                              on_success

  -- The second half of `importKeys`, for an object that has both raw keys.
  unfoldable pub import_raw_keys : ℕ → Keys Key → Failure Key E → Run Key E → Run Key E
  import_raw_keys keys object on_error on_success =
      Internal.import_key_aes browser crypto (property object.aes_key)
        (bind on_error "Could not import AES key")
        λ aes_obj. load keys λ before_aes.
          save keys (record before_aes { aes_key_obj = some aes_obj })
            (load keys λ with_aes.
              Internal.import_key_hmac browser crypto (property with_aes.hmac_key)
                (bind on_error "Could not import HMAC key")
                λ hmac_obj. load keys λ before_hmac.
                  save keys (record before_hmac { hmac_key_obj = some hmac_obj }) on_success)

  -- The callback takes no argument here: it is given the object that the caller already has.
  unfoldable pub import_keys : ℕ → Failure Key E → Run Key E → Run Key E
  import_keys keys on_error on_success = load keys λ object.
      if has object.aes_key_obj && has object.hmac_key_obj
      then on_success
      else if has object.aes_key && has object.hmac_key
      then import_raw_keys keys object on_error on_success
      else on_error (label "Missing keys" ∷ [])

  -- The iv of the keys, or a random one.
  unfoldable pub choose_iv : Keys Key → (Source → Run Key E) → Run Key E
  choose_iv object k = elim object.iv [
    | some iv ↦ k iv
    | none ↦ ask (λ t. fresh (crypto.random_bytes t aes_iv_length)) k
  ]

  unfoldable pub encrypt : ℕ → Source → Failure Key E → (Encrypted → Run Key E) → Run Key E
  encrypt keys message on_error on_success = import_keys keys on_error (
      load keys λ object. choose_iv object λ iv.
        Internal.encrypt browser crypto object.aes_key_obj iv message
          (bind on_error "Could not AES Encrypt")
          λ aes_encrypted. load keys λ later.
            Internal.sign_hmac browser crypto later.hmac_key_obj aes_encrypted
              (bind on_error "Could not HMAC sign")
              λ hmac.
                on_success (record { aes_encrypted = aes_encrypted; hmac = array_buffer hmac }))

  unfoldable pub decrypt : ℕ → Encrypted → Failure Key E → (List ℕ → Run Key E) → Run Key E
  decrypt keys encrypted on_error on_success = import_keys keys on_error (
      load keys λ object.
        Internal.verify_hmac browser crypto object.hmac_key_obj encrypted.hmac
          encrypted.aes_encrypted (bind on_error "Could not verify HMAC")
          (load keys λ later.
            Internal.decrypt_aes browser crypto later.aes_key_obj encrypted.aes_encrypted
              (bind on_error "Could not AES decrypt") on_success))

  unfoldable pub gen_keys_and_encrypt :
      Source → Failure Key E → (ℕ → Encrypted → Run Key E) → Run Key E
  gen_keys_and_encrypt message on_error on_success =
      generate_keys on_error λ keys. encrypt keys message on_error (on_success keys)
