-- ===== src/Environment.antt =====
-- The top of simplecrypto.js: which of the browser's objects the code works with, and the flags
-- `oldWebkit` and `oldIE`, by which it adapts to them.
use crypto_security_projects.Base.{
  Bool, true, false, not, ◌&&◌, Option, none, some, ◌≡◌, refl, arith,
}
use crypto_security_projects.Js.{Attempt, ok, throw, type_error}

-- `window.crypto` or `window.msCrypto`.
pub record CryptoObject (S : Type 0) : Type 0 where
  pub subtle : Option S
  pub webkit_subtle : Option S

-- What the code reads of `window`.
pub record Window (S D : Type 0) : Type 0 where
  pub crypto : Option (CryptoObject S)
  pub ms_crypto : Option (CryptoObject S)
  pub indexed_db : Option D
  pub webkit_indexed_db : Option D
  pub moz_indexed_db : Option D
  pub ms_indexed_db : Option D

-- `a || b` for what may be `undefined`, and whether it is there.
infixr 30 ◌or_else◌
abbrev pub ◌or_else◌ {ℓ} : {A : Type ℓ} → Option A → Option A → Option A
some a or_else b = some a
none or_else b = b

abbrev pub is_defined {ℓ} : {A : Type ℓ} → Option A → Bool
is_defined none = false
is_defined (some _) = true

module _ {S D : Type 0} where
  unfoldable pub old_webkit : Window S D → Bool
  old_webkit window = elim window.crypto [
    | none ↦ false
    | some c ↦ is_defined c.webkit_subtle && not (is_defined c.subtle)
  ]

  unfoldable pub old_ie : Window S D → Bool
  old_ie window =
      is_defined window.ms_crypto
      && elim window.crypto [ none ↦ true | some c ↦ not (is_defined c.subtle) ]

  -- `_crypto`
  unfoldable pub crypto_object : Window S D → Option (CryptoObject S)
  crypto_object window = window.crypto or_else window.ms_crypto

  -- `_cryptoSubtle`: without `_crypto` the code throws, and the module does not load.
  unfoldable pub crypto_subtle : Window S D → Attempt (Option S)
  crypto_subtle window = elim (crypto_object window) [
    | none ↦ throw type_error
    | some c ↦ ok (c.subtle or_else c.webkit_subtle)
  ]

  -- `_indexedDB`
  unfoldable pub indexed_db_object : Window S D → Option D
  indexed_db_object window =
      window.indexed_db or_else window.webkit_indexed_db or_else window.moz_indexed_db
      or_else window.ms_indexed_db

  -- Where neither flag is set and there is a WebCrypto interface to work with, it is the standard
  -- one: `window.crypto.subtle`.
  pub standard_subtle :
      (window : Window S D) (s : S)
      → old_webkit window ≡ false
      → old_ie window ≡ false
      → crypto_subtle window ≡ ok (some s)
      → (c : CryptoObject S) × (window.crypto ≡ some c) × (c.subtle ≡ some s)
  unfolding old_webkit old_ie crypto_subtle crypto_object
  standard_subtle window s not_webkit not_ie found = ground arith

  -- Where `window.crypto` has no interface at all, `oldIE` is set if there is a `window.msCrypto`,
  -- but the code has no WebCrypto interface to work with: it does not look at that of
  -- `window.msCrypto`.
  pub ms_crypto_unused :
      (window : Window S D) (c m : CryptoObject S)
      → window.crypto ≡ some c
      → c.subtle ≡ none
      → c.webkit_subtle ≡ none
      → window.ms_crypto ≡ some m
      → (old_ie window ≡ true) × (crypto_subtle window ≡ ok none)
  unfolding old_ie crypto_subtle crypto_object
  ms_crypto_unused window c m has no_subtle no_webkit ms = (
    rw (old_ie, has, ms, no_subtle) refl,
    rw (crypto_subtle, crypto_object, has, no_subtle, no_webkit) refl,
  )
