-- ===== src/Tests/Environment.antt =====
-- Two windows: one with the standard interfaces, and one of Internet Explorer.
use crypto_security_projects.Base.{ℕ, true, Option, none, some, ◌≡◌, refl}
use crypto_security_projects.Js.{ok}
use crypto_security_projects.Environment.{
  CryptoObject, Window, old_webkit, old_ie, crypto_object, crypto_subtle, standard_subtle,
  ms_crypto_unused,
}

abbrev pub with_subtle : CryptoObject ℕ
with_subtle = record { subtle = some 1; webkit_subtle = none }

abbrev pub without_subtle : CryptoObject ℕ
without_subtle = record { subtle = none; webkit_subtle = none }

abbrev pub window_of : Option (CryptoObject ℕ) → Option (CryptoObject ℕ) → Window ℕ ℕ
window_of crypto ms_crypto = record {
  crypto = crypto;
  ms_crypto = ms_crypto;
  indexed_db = some 3;
  webkit_indexed_db = none;
  moz_indexed_db = none;
  ms_indexed_db = none;
}

standard_subtle_example : (c : CryptoObject ℕ) × (some with_subtle ≡ some c) × (c.subtle ≡ some 1)
unfolding old_webkit old_ie crypto_subtle crypto_object
standard_subtle_example = standard_subtle (window_of (some with_subtle) none) 1 refl refl refl

ms_crypto_unused_example :
    (old_ie (window_of (some without_subtle) (some with_subtle)) ≡ true)
    × (crypto_subtle (window_of (some without_subtle) (some with_subtle)) ≡ ok none)
ms_crypto_unused_example =
    ms_crypto_unused (window_of (some without_subtle) (some with_subtle)) without_subtle with_subtle
      refl refl refl refl
