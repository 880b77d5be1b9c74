-- ===== src/SimpleCrypto/Refusal.antt =====
-- The operations of simplecrypto.js where each use of the WebCrypto interface throws.
use crypto_security_projects.Base.{ℕ, ◌≡◌, refl, List, Option, none, some, Option-cases, inl, inr}
use crypto_security_projects.Js.{Source, array_buffer, uint8_array, array, undefined, type_error}
use crypto_security_projects.Config.{Browser, rsa_encrypt_max}
use crypto_security_projects.Runtime.{
  Page, Run, Failure, Keys, bind, wrap, ask, catching, attempt, load,
}
use crypto_security_projects.Internal.Sym as InternalSym
use crypto_security_projects.Internal.Asym as InternalAsym
use crypto_security_projects.Internal.Asym.Jwk as Jwk
use crypto_security_projects.Internal.Pbkdf2 as InternalPbkdf2
use crypto_security_projects.Internal.Pbkdf2.{
  Options, Derived, given_salt, choose_salt, choose_iterations, given_iterations,
}
use crypto_security_projects.Util.{get_random}
use crypto_security_projects.Sym as Sym
use crypto_security_projects.Sym.{Encrypted, import_keys, import_raw_keys, choose_iv, has}
use crypto_security_projects.Asym as Asym
use crypto_security_projects.Asym.{Message}
use crypto_security_projects.Asym.Keys as AsymKeys
use crypto_security_projects.Pbkdf2.{derive}
use crypto_security_projects.SimpleCrypto.{without_interface}
use crypto_security_projects.Base.Int.{ℤ}

-- The call throws a TypeError, and nothing is reported.
abbrev pub ThrowsAt : {K E : Type 0} → Page K E → Run K E → Type 0
ThrowsAt p run = ((run p).thrown ≡ some type_error) × ((run p).page.reports ≡ p.reports)

abbrev pub Throws : {K E : Type 0} → Run K E → Type 0
Throws {K} {E} run = (p : Page K E) → ThrowsAt p run

-- The object has both raw keys, and no AES key that was made of one.
abbrev pub HasRawAlone : {K : Type 0} → Keys K → Type 0
HasRawAlone object =
    (aes : Source) × (hmac : Source) × (object.aes_key ≡ some aes)
    × (object.hmac_key ≡ some hmac)
    × (object.aes_key_obj ≡ none)

module _ (browser : Browser) (bytes : ℕ → ℕ → List ℕ) (uint16 : ℕ → ℕ) {E : Type 0} where
  pub generate_keys-Throws :
      (e : Failure Unit E) (k : ℕ → Run Unit E)
      → Throws (Sym.generate_keys browser (without_interface bytes uint16) e k)
  unfolding Sym.generate_keys InternalSym.generate_key_aes InternalSym.call ask wrap
  generate_keys-Throws e k p = (refl, refl)

  import_keys-Throws :
      (keys : ℕ) (e : Failure Unit E) (k : Run Unit E) (p : Page Unit E)
      → HasRawAlone (p.objects keys)
      → ThrowsAt p (import_keys browser (without_interface bytes uint16) keys e k)
  unfolding import_keys import_raw_keys load InternalSym.import_key_aes InternalSym.call ask wrap
  import_keys-Throws keys e k p (aes, hmac, has_aes, has_hmac, not_made) =
      rw (not_made, has_aes, has_hmac) (refl, refl)

  pub sym_encrypt-Throws :
      (keys : ℕ) (message : Source) (e : Failure Unit E) (k : Encrypted → Run Unit E)
      (p : Page Unit E)
      → HasRawAlone (p.objects keys)
      → ThrowsAt p (Sym.encrypt browser (without_interface bytes uint16) keys message e k)
  unfolding Sym.encrypt
  sym_encrypt-Throws keys message e k = import_keys-Throws keys e _

  pub sym_decrypt-Throws :
      (keys : ℕ) (encrypted : Encrypted) (e : Failure Unit E) (k : List ℕ → Run Unit E)
      (p : Page Unit E)
      → HasRawAlone (p.objects keys)
      → ThrowsAt p (Sym.decrypt browser (without_interface bytes uint16) keys encrypted e k)
  unfolding Sym.decrypt
  sym_decrypt-Throws keys encrypted e k = import_keys-Throws keys e _

  choose_salt-Throws :
      (options : Options) (k : Source → Run Unit E)
      → ((salt : Source) → Throws (k salt))
      → Throws (choose_salt browser (without_interface bytes uint16) options k)
  unfolding choose_salt ask
  choose_salt-Throws options k throws p = elim (Option-cases (given_salt options.salt)) [
    | inl absent ↦ rw (choose_salt, absent) (throws _ _)
    | inr (salt, there) ↦ rw (choose_salt, there) (throws salt p)
  ]

  choose_iterations-Throws :
      (options : Options) (k : Option ℤ → Run Unit E)
      → ((iterations : Option ℤ) → Throws (k iterations))
      → Throws (choose_iterations browser (without_interface bytes uint16) options k)
  unfolding choose_iterations ask attempt get_random
  choose_iterations-Throws options k throws p =
      elim (Option-cases (given_iterations options.iterations)) [
        | inl absent ↦ rw (choose_iterations, absent) (throws _ _)
        | inr (iterations, there) ↦ rw (choose_iterations, there) (throws iterations p)
      ]

  compat_derive-Throws :
      (password : List ℕ) (bits : ℕ) (options : Options) (e : Failure Unit E)
      (k : Derived → Run Unit E)
      → Throws (
          InternalPbkdf2.compat_derive browser
            (without_interface bytes uint16)
            password
            bits
            options
            e
            k)
  unfolding InternalPbkdf2.compat_derive InternalPbkdf2.import_key_hmac InternalSym.call ask wrap
  compat_derive-Throws password bits options e k =
      choose_salt-Throws options _
        λ salt. choose_iterations-Throws options _ λ iterations p. (refl, refl)

  pub derive-Throws :
      (password : List ℕ) (bits : ℕ) (options : Options) (e : Failure Unit E)
      (k : Derived → Run Unit E)
      → Throws (derive browser (without_interface bytes uint16) password bits options e k)
  unfolding derive catching InternalPbkdf2.password_to_key InternalSym.call ask wrap
  derive-Throws password bits options e k p =
      compat_derive-Throws password bits options (bind e "Compat: could not derive bits") k _

  pub gen_keys_and_encrypt-Throws :
      (message : Source) (e : Failure Unit E) (k : ℕ → Encrypted → Run Unit E)
      → Throws (Sym.gen_keys_and_encrypt browser (without_interface bytes uint16) message e k)
  unfolding Sym.gen_keys_and_encrypt
  gen_keys_and_encrypt-Throws message e k = generate_keys-Throws e _

  pub asym_generate_keys-Throws :
      (json : _) (e : Failure Unit E) (k : _ → Run Unit E)
      → Throws (AsymKeys.generate_keys browser json (without_interface bytes uint16) e k)
  unfolding AsymKeys.generate_keys AsymKeys.generate_encrypt_key Jwk.generate_encrypt_keys
      InternalSym.call ask wrap
  asym_generate_keys-Throws json e k p = (refl, refl)

  extend_data-Throws :
      (message : Source) (e : Failure Unit E) (k : _ → _ → Run Unit E)
      → Throws (InternalAsym.extend_data browser (without_interface bytes uint16) message e k)
  unfolding InternalAsym.extend_data InternalAsym.extend_with_keys rsa_encrypt_max
  extend_data-Throws (array_buffer bs) e k = gen_keys_and_encrypt-Throws (array_buffer bs) e _
  extend_data-Throws (uint8_array bs offset len) e k =
      gen_keys_and_encrypt-Throws (uint8_array bs offset len) e _
  extend_data-Throws (array ns) e k = gen_keys_and_encrypt-Throws (array ns) e _
  extend_data-Throws undefined e k = λ p. (refl, refl)

  pub asym_encrypt-Throws :
      (key : Unit) (message : Source) (e : Failure Unit E) (k : Message → Run Unit E)
      → Throws (Asym.encrypt browser (without_interface bytes uint16) key message e k)
  unfolding Asym.encrypt
  asym_encrypt-Throws key message e k = extend_data-Throws message e _

  pub encrypt_and_sign-Throws :
      (key sign_key : Unit) (message : Source) (e : Failure Unit E) (k : Message → Run Unit E)
      → Throws
          (Asym.encrypt_and_sign browser (without_interface bytes uint16) key sign_key message e k)
  unfolding Asym.encrypt_and_sign
  encrypt_and_sign-Throws key sign_key message e k = extend_data-Throws message e _

  pub asym_decrypt-Throws :
      (key : Unit) (dict : Message) (e : Failure Unit E) (k : List ℕ → Run Unit E)
      → Throws (Asym.decrypt browser (without_interface bytes uint16) key dict e k)
  unfolding Asym.decrypt InternalAsym.decrypt InternalSym.call ask wrap
  asym_decrypt-Throws key dict e k p = elim (Option-cases dict.aes_encrypted) [
    | inl absent ↦ rw absent (refl, refl)
    | inr (a, there) ↦ rw there (refl, refl)
  ]

  pub verify_and_decrypt-Throws :
      (key verify_key : Unit) (dict : Message) (e : Failure Unit E) (k : List ℕ → Run Unit E)
      → Throws
          (Asym.verify_and_decrypt browser (without_interface bytes uint16) key verify_key dict e k)
  unfolding Asym.verify_and_decrypt InternalAsym.verify_signature InternalSym.call ask wrap
  verify_and_decrypt-Throws key verify_key dict e k p = (refl, refl)
