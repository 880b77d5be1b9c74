-- ===== src/Internal/Asym.antt =====
-- `internal.asym` of simplecrypto.js: encryption and signatures with RSA, and `extendData` and
-- `aesDecrypt`, by which a message is encrypted with fresh keys and RSA encrypts the keys.
pub mod Jwk
pub mod Combined
pub mod Extend
pub mod Open
pub mod Settling
use crypto_security_projects.Base.{
  ℕ, ◌+◌, ◌/◌, List, [], ◌∷◌, ◌==◌, Bool, true, false, Option, some, none, length, leb,
  if◌then◌else◌, ◌≡◌, ◌≢◌, refl,
}
use crypto_security_projects.Base.Int.{ℤ, pos, negsuc}
use crypto_security_projects.Js.{
  Attempt, ok, ◌>>=◌, sub_view, Source, array_buffer, uint8_array, array, undefined, type_error,
}
use crypto_security_projects.Config.{Browser, rsa_encrypt_max, aes_length, hmac_options_length}
use crypto_security_projects.Runtime.{Run, Failure, raise, attempt, load, allocate, label, number}
use crypto_security_projects.WebCrypto.{Crypto, rsa_oaep, rsa_pkcs1}
use crypto_security_projects.Util.{combine_arrays}
use crypto_security_projects.Internal.Sym.{call, view_at, view_from}
use crypto_security_projects.Sym as Sym
use crypto_security_projects.Sym.{Encrypted, property, gen_keys_and_encrypt}

-- `{data, additional}`
pub record Extended : Type 0 where
  pub content : Source
  pub additional : Option Encrypted

-- `data.byteLength` or `data.length`
abbrev pub data_length : Source → ℕ
data_length (array_buffer bs) = length bs
data_length (uint8_array bs offset len) = len
data_length (array ns) = length ns
data_length undefined = 0

-- `a <= b` for a length and an integer.
abbrev pub at_most : ℕ → ℤ → Bool
at_most a (pos b) = leb a b
at_most a (negsuc b) = false

module _ (browser : Browser) (crypto : Crypto) {E : Type 0} where
  open crypto use {Key}

  -- The branch with fresh keys, which are put into one array.
  unfoldable pub extend_with_keys :
      Source → Failure Key E → (Extended → Bool → Run Key E) → Run Key E
  extend_with_keys message on_error on_success =
      gen_keys_and_encrypt browser crypto message on_error λ keys encrypted. load keys λ object.
        attempt (combine_arrays (property object.aes_key) (property object.hmac_key))
          λ combined. on_success (record { content = combined; additional = some encrypted }) true

  -- A missing message has no length, and the code throws.
  unfoldable pub extend_data : Source → Failure Key E → (Extended → Bool → Run Key E) → Run Key E
  extend_data undefined on_error on_success = raise type_error
  extend_data message on_error on_success =
      if at_most (data_length message) rsa_encrypt_max
      then on_success (record { content = message; additional = none }) false
      else extend_with_keys message on_error on_success

  -- Whatever its length, a message that is there is encrypted with fresh keys: the maximum for RSA
  -- alone is a negative number, so that no length is within it.
  pub extend_data-extend_with_keys :
      (message : Source) (on_error : Failure Key E) (on_success : Extended → Bool → Run Key E)
      → message ≢ undefined
      → extend_data message on_error on_success ≡ extend_with_keys message on_error on_success
  unfolding extend_data rsa_encrypt_max
  extend_data-extend_with_keys (array_buffer bs) on_error on_success defined = refl
  extend_data-extend_with_keys (uint8_array bs offset len) on_error on_success defined = refl
  extend_data-extend_with_keys (array ns) on_error on_success defined = refl
  extend_data-extend_with_keys undefined on_error on_success defined = absurd (defined refl)

-- What `aesDecrypt` takes out of the combined keys, or the arguments of `onError`.
pub data Split : Type 0 where
  parts : Source → Source → Split
  wrong_size : ℕ → Split

-- The lengths in bytes of the two keys.
abbrev pub aes_key_length : ℕ
aes_key_length = aes_length / 8

abbrev pub hmac_key_length : Browser → ℕ
hmac_key_length browser =
    if browser.old_webkit then hmac_options_length browser else hmac_options_length browser / 8

-- What is neither a Uint8Array nor an ArrayBuffer leaves both keys undefined.
unfoldable pub split_combined : Browser → Source → Attempt Split
split_combined browser (uint8_array bs offset len) =
    if len == aes_key_length + hmac_key_length browser
    then (do
      aes ← sub_view bs offset aes_key_length
      hmac ← sub_view bs (offset + aes_key_length) (hmac_key_length browser)
      ok (parts aes hmac))
    else ok (wrong_size len)
split_combined browser (array_buffer bs) =
    if length bs == aes_key_length + hmac_key_length browser
    then (do
      aes ← view_at (array_buffer bs) 0 aes_key_length
      hmac ← view_from (array_buffer bs) aes_key_length
      ok (parts aes hmac))
    else ok (wrong_size (length bs))
split_combined browser source = ok (parts undefined undefined)

module _ (browser : Browser) (crypto : Crypto) {E : Type 0} where
  open crypto use {Key}

  unfoldable pub sign : Key → Source → Failure Key E → (List ℕ → Run Key E) → Run Key E
  sign key message = call browser crypto λ t. crypto.sign t rsa_pkcs1 key message

  unfoldable pub verify_signature : Key → Source → Source → Failure Key E → Run Key E → Run Key E
  verify_signature key signature message on_error on_success =
      call browser crypto (λ t. crypto.verify t rsa_pkcs1 key signature message) on_error
        λ is_valid. if is_valid then on_success else on_error []

  unfoldable pub encrypt : Key → Source → Failure Key E → (List ℕ → Run Key E) → Run Key E
  encrypt public_key message = call browser crypto λ t. crypto.encrypt t rsa_oaep public_key message

  unfoldable pub decrypt : Key → Source → Failure Key E → (List ℕ → Run Key E) → Run Key E
  decrypt private_key message =
      call browser crypto λ t. crypto.decrypt t rsa_oaep private_key message

  -- What `aesDecrypt` does with the parts. The keys are a new object with the two raw keys.
  abbrev pub decrypt_parts : Encrypted → Failure Key E → (List ℕ → Run Key E) → Split → Run Key E
  decrypt_parts encrypted on_error on_success (wrong_size len) = on_error (
      label "Combined keys size is incorrect"
      ∷ number len
      ∷ number aes_key_length
      ∷ number (hmac_key_length browser)
      ∷ [])
  decrypt_parts encrypted on_error on_success (parts aes hmac) =
      allocate
        (record {
          aes_key = some aes;
          hmac_key = some hmac;
          aes_key_obj = none;
          hmac_key_obj = none;
          iv = none;
        })
        λ keys. Sym.decrypt browser crypto keys encrypted on_error on_success

  unfoldable pub aes_decrypt : Source → Encrypted → Failure Key E → (List ℕ → Run Key E) → Run Key E
  aes_decrypt combined encrypted on_error on_success =
      attempt (split_combined browser combined) (decrypt_parts encrypted on_error on_success)
