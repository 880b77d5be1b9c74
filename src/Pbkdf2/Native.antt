-- ===== src/Pbkdf2/Native.antt =====
-- `pbkdf2.derive` in a browser with PBKDF2, against `compatDerive`.
use crypto_security_projects.Base.{ℕ, suc, ◌*◌, ◌≡◌, ◌≢◌, false, some, List, [], ◌∷◌}
use crypto_security_projects.Base.Int.{pos}
use crypto_security_projects.Js.{Source, undefined, bytes}
use crypto_security_projects.Runtime.{resolve}
use crypto_security_projects.WebCrypto.{Crypto, Usage, pbkdf2, pbkdf2_bits}
use crypto_security_projects.Util.{string_to_bytes}
use crypto_security_projects.Internal.Pbkdf2.{derive_bits}
use crypto_security_projects.Internal.Pbkdf2.Standard.{derived_key}

-- The browser's PBKDF2 with a password is that of RFC 2898 over its HMAC `prf`.
pub record Pbkdf2Of (crypto : Crypto) (password : List ℕ) (prf : List ℕ → List ℕ) : Type 0 where
  pub key : ℕ → crypto.Key
  pub imported :
      (t : ℕ)
      → crypto.import_raw t (string_to_bytes password) pbkdf2 false (Usage.derive_bits ∷ [])
        ≡ resolve (key t)
  pub derives :
      (t u : ℕ) (salt : Source) (c n : ℕ)
      → salt ≢ undefined
      → crypto.derive_bits t (pbkdf2_bits salt (some (pos (suc c)))) (key u) (n * 8)
        ≡ resolve (derived_key prf (bytes salt) (suc c) n)
