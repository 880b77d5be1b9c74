-- ===== src/SimpleCrypto/Register.antt =====
-- Where simplecrypto.js puts the library, and of what it is made.
use crypto_security_projects.Base.{
  ◌≡◌, refl, true, false, ◌&&◌, Bool-cases, Option-cases, none, some, ◌⊎◌, inl, inr,
}
use crypto_security_projects.Js.{ok, throw, type_error}
use crypto_security_projects.Environment.{
  Window, CryptoObject, crypto_object, crypto_subtle, ◌or_else◌,
}
use crypto_security_projects.SimpleCrypto.{
  Natives, library_of, factory, Globals, defined, exported, global, register,
}

module _ {S D V E : Type 0} (natives : Natives S D V) (window : Window S D) where
  factory-none : crypto_object window ≡ none → factory natives {E = E} window ≡ throw type_error
  unfolding factory crypto_subtle
  factory-none absent = rw (factory, crypto_subtle, absent) refl

  factory-some :
      (c : CryptoObject S)
      → crypto_object window ≡ some c
      → factory natives {E = E} window
        ≡ ok (library_of natives window (c.subtle or_else c.webkit_subtle))
  unfolding factory crypto_subtle
  factory-some c there = rw (factory, crypto_subtle, there) refl

  -- An AMD loader gets the factory, which is not called yet. With any other loader and without
  -- `window.crypto` and `window.msCrypto` the script throws a TypeError and puts the library nowhere.
  -- Otherwise the library, made of the interface of the one or else of the other, goes to
  -- `module.exports`, or to the global name if there is none.
  pub register_cases :
      (globals : Globals)
      → (((globals.define_is_function && globals.define_amd) ≡ true)
          × (register globals (factory natives {E = E} window)
              ≡ ok (defined (factory natives window))))
        ⊎ (((globals.define_is_function && globals.define_amd) ≡ false)
            × (crypto_object window ≡ none)
            × (register globals (factory natives {E = E} window) ≡ throw type_error))
        ⊎ ((c : CryptoObject S) × ((globals.define_is_function && globals.define_amd) ≡ false)
            × ((globals.module_is_object && globals.module_exports) ≡ true)
            × (crypto_object window ≡ some c)
            × (register globals (factory natives {E = E} window)
                ≡ ok (exported (library_of natives window (c.subtle or_else c.webkit_subtle)))))
        ⊎ ((c : CryptoObject S) × ((globals.define_is_function && globals.define_amd) ≡ false)
            × ((globals.module_is_object && globals.module_exports) ≡ false)
            × (crypto_object window ≡ some c)
            × (register globals (factory natives {E = E} window)
                ≡ ok (global (library_of natives window (c.subtle or_else c.webkit_subtle)))))
  unfolding register
  register_cases globals = elim (Bool-cases (globals.define_is_function && globals.define_amd)) [
    | inl amd ↦ inl (amd, rw (register, amd) refl)
    | inr not_amd ↦ elim (Bool-cases (globals.module_is_object && globals.module_exports)) [
      | inl common_js ↦ elim (Option-cases (crypto_object window)) [
        | inl absent ↦
            inr (inl (not_amd, absent, rw (register, not_amd, common_js, factory-none absent) refl))
        | inr (c, there) ↦ inr (
            inr (
              inl (
                c,
                not_amd,
                common_js,
                there,
                rw (register, not_amd, common_js, factory-some c there) refl,
              )))
      ]
      | inr plain ↦ elim (Option-cases (crypto_object window)) [
        | inl absent ↦
            inr (inl (not_amd, absent, rw (register, not_amd, plain, factory-none absent) refl))
        | inr (c, there) ↦ inr (
            inr (
              inr (
                c,
                not_amd,
                plain,
                there,
                rw (register, not_amd, plain, factory-some c there) refl,
              )))
      ]
    ]
  ]
