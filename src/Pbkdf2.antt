-- ===== src/Pbkdf2.antt =====
-- `simpleCrypto.pbkdf2` of simplecrypto.js: PBKDF2 by the browser or by `compatDerive`.
pub mod Fallback
pub mod Native
use crypto_security_projects.Base.{ℕ, List}
use crypto_security_projects.Config.{Browser}
use crypto_security_projects.Runtime.{Run, Failure, bind, catching}
use crypto_security_projects.WebCrypto.{Crypto}
use crypto_security_projects.Internal.Pbkdf2.{
  Options, Derived, password_to_key, derive_bits, compat_derive,
}

module _ (browser : Browser) (crypto : Crypto) {E : Type 0} where
  open crypto use {Key}

  -- The call of `compatDerive`, which stands in two places.
  abbrev pub derive_compat :
      List ℕ → ℕ → Options → Failure Key E → (Derived → Run Key E) → Run Key E
  derive_compat password bits options on_error on_success =
      compat_derive browser crypto password bits options
        (bind on_error "Compat: could not derive bits") on_success

  -- The `catch` sees only an exception of the call itself, since the callbacks run later.
  unfoldable pub derive : List ℕ → ℕ → Options → Failure Key E → (Derived → Run Key E) → Run Key E
  derive password bits options on_error on_success =
      catching
        (password_to_key browser crypto password
          (λ args. derive_compat password bits options on_error on_success)
          (λ key.
            derive_bits browser crypto key bits options (bind on_error "Could not derive bits")
              on_success))
        (λ x. derive_compat password bits options on_error on_success)
