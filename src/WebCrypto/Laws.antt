-- ===== src/WebCrypto/Laws.antt =====
-- What the code relies on of the browser, where a theorem assumes it: the documented behaviour of
-- AES-CBC and HMAC keys, for well-formed arguments.
use crypto_security_projects.Base.{ℕ, ◌≤◌, ◌≡◌, ◌≢◌, List, [], ◌∷◌, length, true, false}
use crypto_security_projects.Js.{Source, bytes, undefined}
use crypto_security_projects.Runtime.{resolve}
use crypto_security_projects.WebCrypto.{
  Crypto, Usage, aes_cbc, aes_cbc_length, aes_cbc_iv, hmac_length, rsa_oaep, rsa_pkcs1,
}

-- `IsAes key raw` and `IsHmac key raw`: the key has the material `raw`, and may be used.
-- `hmac_bits` is the length in the options, which every call repeats.
pub record Interop (crypto : Crypto) (hmac_bits : ℕ) : Type 1 where
  pub IsAes : crypto.Key → List ℕ → Type 0
  pub IsHmac : crypto.Key → List ℕ → Type 0
  pub import_aes :
      (t : ℕ) (raw : Source)
      → length (bytes raw) ≡ 16
      → (key : crypto.Key) × (crypto.import_raw t raw aes_cbc false
            (Usage.encrypt ∷ Usage.decrypt ∷ [])
          ≡ resolve key)
        × IsAes key (bytes raw)
  pub import_hmac :
      (t : ℕ) (raw : Source)
      → length (bytes raw) ≡ 20
      → (key : crypto.Key) × (crypto.import_raw t raw
            (hmac_length hmac_bits)
            false
            (Usage.sign ∷ Usage.verify ∷ [])
          ≡ resolve key)
        × IsHmac key (bytes raw)
  -- Encryption succeeds, and decryption with the same material and iv undoes it.
  pub aes_cbc_inverse :
      (t : ℕ) (key : crypto.Key) (raw : List ℕ) (iv message : Source)
      → IsAes key raw
      → length (bytes iv) ≡ 16
      → message ≢ undefined
      → (cipher : List ℕ) × (crypto.encrypt t (aes_cbc_iv iv) key message ≡ resolve cipher)
        × ((u : ℕ) (other : crypto.Key) (iv' cipher' : Source)
            → IsAes other raw
            → bytes iv' ≡ bytes iv
            → bytes cipher' ≡ cipher
            → crypto.decrypt u (aes_cbc_iv iv') other cipher' ≡ resolve (bytes message))
  -- Signing succeeds, and the signature verifies with the same material and bytes.
  pub hmac_verifies :
      (t : ℕ) (key : crypto.Key) (raw : List ℕ) (message : Source)
      → IsHmac key raw
      → message ≢ undefined
      → (mac : List ℕ) × (crypto.sign t (hmac_length hmac_bits) key message ≡ resolve mac)
        × ((u : ℕ) (other : crypto.Key) (mac' message' : Source)
            → IsHmac other raw
            → bytes mac' ≡ mac
            → bytes message' ≡ bytes message
            → crypto.verify u (hmac_length hmac_bits) other mac' message' ≡ resolve true)
  pub length-random_bytes : (t n : ℕ) → length (crypto.random_bytes t n) ≡ n

-- Generated keys are exported as raw keys of the right sizes, whenever it is asked.
pub record Generation (crypto : Crypto) (hmac_bits : ℕ) : Type 1 where
  pub generate_aes :
      (t : ℕ)
      → (key : crypto.Key) × (crypto.generate_key t
            (aes_cbc_length 128)
            true
            (Usage.encrypt ∷ Usage.decrypt ∷ [])
          ≡ resolve key)
        × ((u : ℕ) → (raw : List ℕ) × (crypto.export_raw u key ≡ resolve raw) × (length raw ≡ 16))
  pub generate_hmac :
      (t : ℕ)
      → (key : crypto.Key) × (crypto.generate_key t
            (hmac_length hmac_bits)
            true
            (Usage.sign ∷ Usage.verify ∷ [])
          ≡ resolve key)
        × ((u : ℕ) → (raw : List ℕ) × (crypto.export_raw u key ≡ resolve raw) × (length raw ≡ 20))

-- RSA with a modulus of 2048 bits. `IsPair public private` and `IsSigner private public`: the keys
-- belong together, and may be used. RSA-OAEP with SHA-1 takes 214 bytes.
pub record RsaInterop (crypto : Crypto) : Type 1 where
  pub IsPair : crypto.Key → crypto.Key → Type 0
  pub IsSigner : crypto.Key → crypto.Key → Type 0
  pub rsa_inverse :
      (t : ℕ) (public_key private_key : crypto.Key) (message : Source)
      → IsPair public_key private_key
      → message ≢ undefined
      → length (bytes message) ≤ 214
      → (cipher : List ℕ) × (crypto.encrypt t rsa_oaep public_key message ≡ resolve cipher)
        × ((u : ℕ) (cipher' : Source)
            → bytes cipher' ≡ cipher
            → crypto.decrypt u rsa_oaep private_key cipher' ≡ resolve (bytes message))
  pub rsa_verifies :
      (t : ℕ) (private_key public_key : crypto.Key) (message : Source)
      → IsSigner private_key public_key
      → message ≢ undefined
      → (signature : List ℕ) × (crypto.sign t rsa_pkcs1 private_key message ≡ resolve signature)
        × ((u : ℕ) (signature' message' : Source)
            → bytes signature' ≡ signature
            → bytes message' ≡ bytes message
            → crypto.verify u rsa_pkcs1 public_key signature' message' ≡ resolve true)
