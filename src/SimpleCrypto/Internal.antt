-- ===== src/SimpleCrypto/Internal.antt =====
-- The objects `util` and `internal` of simplecrypto.js, which it hands out with `simpleCrypto`.
use crypto_security_projects.Base.{ℕ, Bool, List, Option}
use crypto_security_projects.Base.Int.{ℤ}
use crypto_security_projects.Js.{Attempt, Source}
use crypto_security_projects.Config.{Browser}
use crypto_security_projects.Runtime.{Run, Failure}
use crypto_security_projects.WebCrypto.{Crypto, Usage, Algorithm, KeyPair, KeyData, Json}
use crypto_security_projects.Util.{
  uint32_to_buffer, buffer_to_uint32, combine_arrays, bytes_to_string, string_to_bytes, get_random,
}
use crypto_security_projects.Internal.Sym as Sym
use crypto_security_projects.Internal.Pbkdf2 as Pbkdf2
use crypto_security_projects.Internal.Pbkdf2.{Options, Derived}
use crypto_security_projects.Internal.Asym as Asym
use crypto_security_projects.Internal.Asym.{Extended}
use crypto_security_projects.Internal.Asym.Jwk as Jwk
use crypto_security_projects.Sym.{Encrypted}

-- What follows the arguments of an operation: `onError` and `onSuccess`, which takes an `A`.
abbrev pub Callbacks {ℓ} : Type 0 → Type 0 → Type ℓ → Type ℓ
Callbacks K E A = Failure K E → (A → Run K E) → Run K E

-- The same, where `onSuccess` takes nothing.
abbrev pub Signals : Type 0 → Type 0 → Type 0
Signals K E = Failure K E → Run K E → Run K E

pub record UtilObject : Type 0 where
  pub uint32_to_buffer : ℤ → List ℕ
  pub buffer_to_uint32 : Source → Attempt (Option ℤ)
  pub combine_arrays : Source → Source → Attempt Source
  pub bytes_to_string : Source → List ℕ
  pub string_to_bytes : List ℕ → Source
  -- With the number that `getRandomValues` gives.
  pub get_random : ℤ → ℕ → Attempt ℕ

abbrev pub util : UtilObject
util = record {
  uint32_to_buffer = uint32_to_buffer;
  buffer_to_uint32 = buffer_to_uint32;
  combine_arrays = combine_arrays;
  bytes_to_string = bytes_to_string;
  string_to_bytes = string_to_bytes;
  get_random = get_random;
}

pub record InternalSym (K E : Type 0) : Type 0 where
  pub generate_key_aes : Callbacks K E K
  pub generate_key_hmac : Callbacks K E K
  pub import_key_aes : Source → Callbacks K E K
  pub import_key_hmac : Source → Callbacks K E K
  pub export_key : K → Callbacks K E (List ℕ)
  pub encrypt : Option K → Source → Source → Callbacks K E Source
  pub decrypt_aes : Option K → Source → Callbacks K E (List ℕ)
  pub sign_hmac : Option K → Source → Callbacks K E (List ℕ)
  pub verify_hmac : Option K → Source → Source → Signals K E

pub record InternalPbkdf2 (K E : Type 0) : Type 0 where
  pub password_to_key : List ℕ → Callbacks K E K
  pub derive_bits : K → ℕ → Options → Callbacks K E Derived
  pub import_key_hmac : List ℕ → Callbacks K E K
  pub sign_hmac : K → Source → Callbacks K E (List ℕ)
  pub compat_derive : List ℕ → ℕ → Options → Callbacks K E Derived

pub record InternalAsym (K E : Type 0) : Type 0 where
  pub generate_encrypt_keys : Callbacks K E (KeyPair K)
  pub generate_sign_keys : Callbacks K E (KeyPair K)
  pub import_key : KeyData → Algorithm → List Usage → Callbacks K E K
  pub import_encrypt_key : KeyData → List Usage → Callbacks K E K
  pub import_sign_key : KeyData → List Usage → Callbacks K E K
  pub export_key : K → List Usage → Callbacks K E KeyData
  pub sign : K → Source → Callbacks K E (List ℕ)
  pub verify_signature : K → Source → Source → Signals K E
  pub encrypt : K → Source → Callbacks K E (List ℕ)
  -- `onSuccess` takes the message with its keys, and whether there are any.
  pub extend_data : Source → Failure K E → (Extended → Bool → Run K E) → Run K E
  pub decrypt : K → Source → Callbacks K E (List ℕ)
  pub aes_decrypt : Source → Encrypted → Callbacks K E (List ℕ)

pub record InternalObject (K E : Type 0) : Type 0 where
  pub sym : InternalSym K E
  pub asym : InternalAsym K E
  pub pbkdf2 : InternalPbkdf2 K E

module _ (browser : Browser) (json : Json) (crypto : Crypto) {E : Type 0} where
  open crypto use {Key}

  abbrev pub internal_sym : InternalSym Key E
  internal_sym = record {
    generate_key_aes = Sym.generate_key_aes browser crypto;
    generate_key_hmac = Sym.generate_key_hmac browser crypto;
    import_key_aes = Sym.import_key_aes browser crypto;
    import_key_hmac = Sym.import_key_hmac browser crypto;
    export_key = Sym.export_key browser crypto;
    encrypt = Sym.encrypt browser crypto;
    decrypt_aes = Sym.decrypt_aes browser crypto;
    sign_hmac = Sym.sign_hmac browser crypto;
    verify_hmac = Sym.verify_hmac browser crypto;
  }

  abbrev pub internal_asym : InternalAsym Key E
  internal_asym = record {
    generate_encrypt_keys = Jwk.generate_encrypt_keys browser json crypto;
    generate_sign_keys = Jwk.generate_sign_keys browser json crypto;
    import_key = Jwk.import_key browser json crypto;
    import_encrypt_key = Jwk.import_encrypt_key browser json crypto;
    import_sign_key = Jwk.import_sign_key browser json crypto;
    export_key = Jwk.export_key browser json crypto;
    sign = Asym.sign browser crypto;
    verify_signature = Asym.verify_signature browser crypto;
    encrypt = Asym.encrypt browser crypto;
    extend_data = Asym.extend_data browser crypto;
    decrypt = Asym.decrypt browser crypto;
    aes_decrypt = Asym.aes_decrypt browser crypto;
  }

  abbrev pub internal_pbkdf2 : InternalPbkdf2 Key E
  internal_pbkdf2 = record {
    password_to_key = Pbkdf2.password_to_key browser crypto;
    derive_bits = Pbkdf2.derive_bits browser crypto;
    import_key_hmac = Pbkdf2.import_key_hmac browser crypto;
    sign_hmac = Pbkdf2.sign_hmac browser crypto;
    compat_derive = Pbkdf2.compat_derive browser crypto;
  }

  abbrev pub internal : InternalObject Key E
  internal = record { sym = internal_sym; asym = internal_asym; pbkdf2 = internal_pbkdf2 }
