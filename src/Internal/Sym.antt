-- ===== src/Internal/Sym.antt =====
-- `internal.sym` of simplecrypto.js: AES-CBC and HMAC.
pub mod Steps
pub mod Settling
use crypto_security_projects.Base.{
  ℕ, ◌+◌, ◌-◌, Bool, true, false, List, [], ◌∷◌, String, Option, none, some, length, ltb,
  if◌then◌else◌,
}
use crypto_security_projects.Js.{
  Attempt, ok, throw, ◌>>=◌, Exn, type_error, range_error, Source, array_buffer, uint8_array, array,
  undefined, bytes, fresh, sub_view,
}
use crypto_security_projects.Config.{Browser, aes_length, hmac_options_length}
use crypto_security_projects.Runtime.{
  Run, Failure, Arg, label, exn, Settled, resolve, reject, refuse, wrap, attempt, ask, bind,
}
use crypto_security_projects.WebCrypto.{
  Crypto, Usage, Algorithm, aes_cbc, aes_cbc_length, aes_cbc_iv, hmac_length,
}
use crypto_security_projects.Util.{combine_arrays}

-- `array.buffer`
abbrev pub buffer_of : Source → Source
buffer_of (uint8_array bs offset len) = array_buffer bs
buffer_of _ = undefined

-- `new Uint8Array(source, 16)`
abbrev pub view_from : Source → ℕ → Attempt Source
view_from (array_buffer bs) offset =
    if ltb (length bs) offset then throw range_error else sub_view bs offset (length bs - offset)
view_from source offset = ok (fresh (bytes source))

-- `new Uint8Array(source, offset, len)`
abbrev pub view_at : Source → ℕ → ℕ → Attempt Source
view_at (array_buffer bs) offset len = sub_view bs offset len
view_at source offset len = ok (fresh (bytes source))

-- The two parts of `cipherdata` in `decryptAES`: the iv and what follows it. In the first case
-- `length - 16` is negative below 16, and the view throws.
unfoldable pub split_iv : Source → Attempt (Source × Source)
split_iv (uint8_array bs offset len) = do
  iv ← sub_view bs offset 16
  encrypted ← (if ltb len 16 then throw range_error else sub_view bs (offset + 16) (len - 16))
  ok (iv, encrypted)
split_iv source = do iv ← view_at source 0 16; encrypted ← view_from source 16; ok (iv, encrypted)

-- An operation on a key that may be `undefined`, which the browser rejects.
abbrev pub with_key {ℓ κ} : {K : Type ℓ} {A : Type κ} → Option K → (K → Settled A) → Settled A
with_key none operation = reject type_error
with_key (some key) operation = operation key

module _ (browser : Browser) (crypto : Crypto) {E : Type 0} where
  open crypto use {Key}

  -- `wrap(operation, onError, onSuccess)`
  unfoldable pub call {ℓ} :
      {A : Type ℓ} → (ℕ → Settled A) → Failure Key E → (A → Run Key E) → Run Key E
  call operation on_error on_success =
      ask operation λ result. wrap browser.has_then result on_error on_success

  unfoldable pub generate_key_aes : Failure Key E → (Key → Run Key E) → Run Key E
  generate_key_aes = call λ t.
      crypto.generate_key t (aes_cbc_length aes_length) true (Usage.encrypt ∷ Usage.decrypt ∷ [])

  unfoldable pub generate_key_hmac : Failure Key E → (Key → Run Key E) → Run Key E
  generate_key_hmac = call λ t.
      crypto.generate_key t (hmac_length (hmac_options_length browser)) true
        (Usage.sign ∷ Usage.verify ∷ [])

  unfoldable pub import_key_aes : Source → Failure Key E → (Key → Run Key E) → Run Key E
  import_key_aes key =
      call λ t. crypto.import_raw t key aes_cbc false (Usage.encrypt ∷ Usage.decrypt ∷ [])

  unfoldable pub import_key_hmac : Source → Failure Key E → (Key → Run Key E) → Run Key E
  import_key_hmac key = call λ t.
      crypto.import_raw t key (hmac_length (hmac_options_length browser)) false
        (Usage.sign ∷ Usage.verify ∷ [])

  unfoldable pub export_key : Key → Failure Key E → (List ℕ → Run Key E) → Run Key E
  export_key key = call λ t. crypto.export_raw t key

  -- The result is the iv and the ciphertext in one buffer.
  unfoldable pub encrypt :
      Option Key → Source → Source → Failure Key E → (Source → Run Key E) → Run Key E
  encrypt key iv message on_error on_success =
      call (λ t. with_key key λ k. crypto.encrypt t (aes_cbc_iv iv) k message) on_error
        λ encrypted.
          attempt (combine_arrays iv (array_buffer encrypted))
            λ cipherdata. on_success (buffer_of cipherdata)

  unfoldable pub decrypt_aes :
      Option Key → Source → Failure Key E → (List ℕ → Run Key E) → Run Key E
  decrypt_aes key cipherdata on_error on_success = attempt (split_iv cipherdata) λ parts.
      call (λ t. with_key key λ k. crypto.decrypt t (aes_cbc_iv parts.0) k parts.1) on_error
        on_success

  unfoldable pub sign_hmac : Option Key → Source → Failure Key E → (List ℕ → Run Key E) → Run Key E
  sign_hmac key message =
      call
        λ t. with_key key λ k. crypto.sign t (hmac_length (hmac_options_length browser)) k message

  unfoldable pub verify_hmac : Option Key → Source → Source → Failure Key E → Run Key E → Run Key E
  verify_hmac key mac cipherdata on_error on_success =
      call
        (λ t.
          with_key key
            λ k. crypto.verify t (hmac_length (hmac_options_length browser)) k mac cipherdata)
        on_error λ is_valid. if is_valid then on_success else on_error (label "Invalid HMAC" ∷ [])
