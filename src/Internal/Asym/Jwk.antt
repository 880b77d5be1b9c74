-- ===== src/Internal/Asym/Jwk.antt =====
-- The RSA keys of `internal.asym` in simplecrypto.js: generation, and import and export as JSON Web
-- Keys, whose members have other names in old browsers.
pub mod Members
pub mod Settling
use crypto_security_projects.Base.{
  ℕ, Bool, true, false, ◌||◌, List, [], ◌∷◌, String, Option, none, some, if◌then◌else◌,
}
use crypto_security_projects.Js.{Attempt, ok, Source, ◌>>=◌, bytes}
use crypto_security_projects.Js.Objects.{lookup, has_own, put, remove}
use crypto_security_projects.Config.{Browser, rsa_length}
use crypto_security_projects.Runtime.{Run, Failure, attempt, catching, message, exn}
use crypto_security_projects.WebCrypto.{
  Crypto, Json, Jwk, Member, flag, text, texts, KeyData, as_object, as_bytes, KeyPair, Usage,
  Algorithm, rsa_oaep, rsa_oaep_length, rsa_pkcs1, rsa_pkcs1_length,
}
use crypto_security_projects.Util.{bytes_to_string, string_to_bytes}
use crypto_security_projects.Internal.Sym.{call}

abbrev pub old : Browser → Bool
old browser = browser.old_webkit || browser.old_ie

-- `object[to] = object[from]; delete object[from]`, if it has the property.
unfoldable pub rename : String → String → Jwk → Jwk
rename from to jwk = elim (lookup from jwk) [
  | none ↦ jwk
  | some value ↦ remove from (put to value jwk)
]

-- The key as old browsers name its members: `extractable` for `ext`, and no `key_ops`.
unfoldable pub to_old_jwk : Jwk → Jwk
to_old_jwk jwk =
    let renamed = rename "ext" "extractable" jwk in
    if has_own "key_ops" renamed then remove "key_ops" renamed else renamed

-- `if (!object.hasOwnProperty(name)) object[name] = value`
unfoldable pub default : String → Member → Jwk → Jwk
default name value jwk = if has_own name jwk then jwk else put name value jwk

-- The key as the standard names its members.
unfoldable pub from_old_jwk : List String → String → Jwk → Jwk
from_old_jwk usage algorithm jwk =
    default "alg" (text algorithm)
      (default "key_ops" (texts usage) (rename "extractable" "ext" jwk))

-- The names of the usages, as they stand in `key_ops`.
abbrev pub usage_name : Usage → String
usage_name Usage.encrypt = "encrypt"
usage_name Usage.decrypt = "decrypt"
usage_name Usage.sign = "sign"
usage_name Usage.verify = "verify"
usage_name Usage.derive_bits = "deriveBits"

abbrev pub usage_names : List Usage → List String
usage_names [] = []
usage_names (u ∷ us) = usage_name u ∷ usage_names us

-- The properties of a value that JSON writes: a buffer has none.
abbrev pub properties : KeyData → Jwk
properties (as_object jwk) = jwk
properties (as_bytes source) = []

-- What `new Uint8Array(value)` holds: an object has no length.
abbrev pub exported_bytes : KeyData → Source
exported_bytes (as_object jwk) = Source.array_buffer []
exported_bytes (as_bytes source) = source

-- A copy of the key in the form of old browsers, so that the caller's key stays as it is.
unfoldable pub old_key_data : Json → KeyData → Attempt KeyData
old_key_data json jwk = do
  copy ← json.parse (json.stringify (properties jwk))
  ok (as_bytes (string_to_bytes (json.stringify (to_old_jwk copy))))

module _ (browser : Browser) (json : Json) (crypto : Crypto) {E : Type 0} where
  open crypto use {Key}

  unfoldable pub generate_encrypt_keys : Failure Key E → (KeyPair Key → Run Key E) → Run Key E
  generate_encrypt_keys = call browser crypto λ t.
      crypto.generate_key_pair t (rsa_oaep_length rsa_length) true
        (Usage.encrypt ∷ Usage.decrypt ∷ [])

  unfoldable pub generate_sign_keys : Failure Key E → (KeyPair Key → Run Key E) → Run Key E
  generate_sign_keys = call browser crypto λ t.
      crypto.generate_key_pair t (rsa_pkcs1_length rsa_length) true (Usage.sign ∷ Usage.verify ∷ [])

  -- `_importKey`
  unfoldable pub import_key :
      KeyData → Algorithm → List Usage → Failure Key E → (Key → Run Key E) → Run Key E
  import_key jwk options usage on_error on_success =
      attempt (if old browser then old_key_data json jwk else ok jwk) λ key_data.
        call browser crypto (λ t. crypto.import_jwk t key_data options false usage) on_error
          on_success

  unfoldable pub import_encrypt_key :
      KeyData → List Usage → Failure Key E → (Key → Run Key E) → Run Key E
  import_encrypt_key jwk usage = import_key jwk rsa_oaep usage

  unfoldable pub import_sign_key :
      KeyData → List Usage → Failure Key E → (Key → Run Key E) → Run Key E
  import_sign_key jwk usage = import_key jwk rsa_pkcs1 usage

  -- In old browsers an exception of `onSuccess` is caught too, and goes to `onError`.
  unfoldable pub export_key : Key → List Usage → Failure Key E → (KeyData → Run Key E) → Run Key E
  export_key key usage on_error on_success =
      call browser crypto (λ t. crypto.export_jwk t key) on_error
        λ jwk.
          if old browser
          then catching
              (attempt (json.parse (bytes_to_string (exported_bytes jwk))) λ fixed.
                on_success
                  (as_object (from_old_jwk (usage_names usage) (crypto.algorithm_name key) fixed)))
              (λ x. on_error (message x ∷ exn x ∷ []))
          else on_success jwk
