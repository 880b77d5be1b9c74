-- ===== src/Sym/Password/RoundTrip.antt =====
-- What `sym.encryptWithPassword` seals, `sym.decryptWithPassword` opens with the same password.
use crypto_security_projects.Base.{
  ℕ, suc, ◌≤◌, ◌<◌, ◌^◌, ◌≡◌, ◌≢◌, ◌∙◌, ap, sym, arith, false, List, [], ◌∷◌, take-length,
}
use crypto_security_projects.Base.Int.{pos}
use crypto_security_projects.Js.{Source, array_buffer, undefined, bytes, fresh}
use crypto_security_projects.Config.{Browser, hmac_options_length}
use crypto_security_projects.Runtime.{Page, bind, allocate, tick}
use crypto_security_projects.Runtime.Delivery.{Delivers}
use crypto_security_projects.WebCrypto.{Crypto, Usage, pbkdf2}
use crypto_security_projects.WebCrypto.Laws.{Interop}
use crypto_security_projects.Util.{string_to_bytes, uint32_to_buffer}
use crypto_security_projects.Internal.Pbkdf2.Standard.{derived_key}
use crypto_security_projects.Internal.Pbkdf2.Output.{length-derived_key}
use crypto_security_projects.Internal.Pbkdf2.Compat.{HmacOf, Given-Chooses}
use crypto_security_projects.Pbkdf2.Fallback.{Fails, derive_chosen}
use crypto_security_projects.Sym.{Encrypted, encrypt, decrypt}
use crypto_security_projects.Sym.Open.{Ready, Decrypts}
use crypto_security_projects.Sym.RoundTrip.{decrypt-encrypt}
use crypto_security_projects.Sym.Password.{
  WithPassword, split_keys, encrypt_with_password, decrypt_with_password,
}
use crypto_security_projects.Sym.Password.Stored.{
  with_keys, aes_part, hmac_part, with_keys-Ready, with_keys-IvIsGood, random_choice, stored-Given,
}

-- The 36 bytes of two keys, of a random salt.
abbrev pub stored_key : (List ℕ → List ℕ) → List ℕ → ℕ → List ℕ
stored_key prf salt c = derived_key prf (bytes (fresh salt)) (suc c) 36

-- What `encryptWithPassword` hands out, of the salt and the iterations.
abbrev pub stored : Encrypted → List ℕ → ℕ → WithPassword
stored encrypted salt c = record {
  encrypted = encrypted;
  pbkdf2_salt = array_buffer salt;
  pbkdf2_iter = array_buffer (uint32_to_buffer (pos (suc c)));
}

module _ (browser : Browser) (crypto : Crypto) (laws : Interop crypto (hmac_options_length browser))
    (password : List ℕ) (prf : List ℕ → List ℕ) (mac : HmacOf crypto password prf)
    (fails : (t : ℕ)
      → Fails
          (crypto.import_raw t (string_to_bytes password) pbkdf2 false (Usage.derive_bits ∷ [])))
    (range : (t : ℕ) → crypto.random_uint16 t ≤ 65535) {E : Type 0} where
  open crypto use {Key}

  -- Where the derived keys open the encrypted part, the password opens the whole.
  open-Delivers :
      (salt : List ℕ) (c : ℕ) (encrypted : Encrypted) (message : List ℕ)
      → suc c < 2 ^ 31
      → ((keys : ℕ) (r : Page Key E)
          → Ready browser crypto laws keys r
              (aes_part (stored_key prf salt c))
              (hmac_part (stored_key prf salt c))
          → Decrypts browser crypto laws keys r encrypted message)
      → (p : Page Key E)
      → (q : Page Key E) × Delivers
          (decrypt_with_password browser crypto password (stored encrypted salt c))
          p
          message
          q
  unfolding decrypt_with_password allocate
  open-Delivers salt c encrypted message small opens p =
      let given = stored-Given salt c small in
      let (r, derives) =
        derive_chosen browser crypto password prf mac _ (array_buffer salt) c 36 p (tick p)
          (fails p.clock) (Given-Chooses browser crypto _ (array_buffer salt) c (tick p) given)
          given.defined (omega arith) (omega arith) in
      let same : derived_key prf salt (suc c) 36 ≡ stored_key prf salt c =
        ap (λ (bs : List ℕ). derived_key prf bs (suc c) 36) (sym (take-length salt)) in
      let (q, opened) = opens r.next (with_keys (stored_key prf salt c) r) (
        with_keys-Ready browser crypto laws (stored_key prf salt c) r
          (length-derived_key prf mac.sized (bytes (fresh salt)) c 36)) in
      (
        q,
        λ e k quiet.
            let run =
              ap (λ (d : List ℕ). decrypt browser crypto r.next encrypted e k (with_keys d r)) same
              ∙ opened e k quiet in
            derives (bind e "PBKDF2 error")
              (λ pbkdf2.
                allocate (split_keys pbkdf2.derived)
                  λ keys. decrypt browser crypto keys encrypted e k)
              (ap (λ o. o.thrown) run ∙ quiet)
            ∙ run,
      )

  -- In a browser that has AES-CBC and HMAC but no PBKDF2, `encryptWithPassword` hands a sealed
  -- message to `onSuccess`, for a defined message. `decryptWithPassword` with the same password then
  -- hands the bytes of the message to its own `onSuccess`, on whatever page it is called.
  pub decrypt_with_password-encrypt_with_password :
      (message : Source) (p : Page Key E)
      → message ≢ undefined
      → (sealed : WithPassword) × (q : Page Key E) × Delivers
          (encrypt_with_password browser crypto password message)
          p
          sealed
          q
        × ((r : Page Key E)
            → (s : Page Key E) × Delivers
                (decrypt_with_password browser crypto password sealed)
                r
                (bytes message)
                s)
  unfolding encrypt_with_password allocate
  decrypt_with_password-encrypt_with_password message p defined =
      let (salt, c, chosen, chooses, small) = random_choice browser crypto range (tick p) in
      let derived = stored_key prf salt c in
      let (r, derives) =
        derive_chosen browser crypto password prf mac _ (fresh salt) c 36 p chosen (fails p.clock)
          chooses (λ e. cc) (omega arith) (omega arith) in
      let (encrypted, q, seals, opens) =
        decrypt-encrypt browser crypto laws r.next (with_keys derived r) (aes_part derived)
          (hmac_part derived) message
          (with_keys-Ready browser crypto laws derived r
            (length-derived_key prf mac.sized (bytes (fresh salt)) c 36))
          (with_keys-IvIsGood browser crypto laws derived r) defined in
      (
        stored encrypted salt c,
        q,
        λ e k quiet.
            let run = seals e (λ encrypted. k (stored encrypted salt c)) quiet in
            derives (bind e "PBKDF2 error")
              (λ pbkdf2. allocate (split_keys pbkdf2.derived) λ keys.
                encrypt browser crypto keys message e λ encrypted. k (record {
                  encrypted = encrypted;
                  pbkdf2_salt = pbkdf2.salt;
                  pbkdf2_iter = array_buffer pbkdf2.iterations;
                }))
              (ap (λ o. o.thrown) run ∙ quiet)
            ∙ run,
        open-Delivers salt c encrypted (bytes message) small opens,
      )
