-- ===== src/Sym/Authenticity.antt =====
-- `sym.decrypt` hands out nothing that the HMAC does not vouch for.
use crypto_security_projects.Base.{
  ℕ, ◌≡◌, ◌∙◌, ap, false, List, [], ◌∷◌, Option, none, some, if◌then◌else◌,
}
use crypto_security_projects.Js.{Source, bytes}
use crypto_security_projects.Config.{Browser, hmac_options_length}
use crypto_security_projects.Runtime.{Run, Failure, Page, Arg, label, resolve, tick, load, bind}
use crypto_security_projects.Runtime.Delivery.{Rejects}
use crypto_security_projects.WebCrypto.{Crypto, hmac_length}
use crypto_security_projects.WebCrypto.Laws.{Interop}
use crypto_security_projects.Internal.Sym as Internal
use crypto_security_projects.Internal.Sym.{verify_hmac}
use crypto_security_projects.Internal.Sym.Steps.{call-Delivers}
use crypto_security_projects.Sym.{Encrypted, decrypt}
use crypto_security_projects.Sym.Import.{import_keys-Delivers}
use crypto_security_projects.Sym.Open.{Ready, open_sealed}

abbrev pub invalid_hmac : List Arg
invalid_hmac = label "Could not verify HMAC" ∷ label "Invalid HMAC" ∷ []

module _ (browser : Browser) (crypto : Crypto)
    (laws : Interop crypto (hmac_options_length browser)) where
  open crypto use {Key}

  verify_hmac-Rejects :
      {E : Type 0} (key : Key) (mac message : Source) {p : Page Key E} (e : Failure Key E)
      (k : Run Key E)
      → crypto.verify p.clock (hmac_length (hmac_options_length browser)) key mac message
        ≡ resolve false
      → (e (label "Invalid HMAC" ∷ []) (tick p)).thrown ≡ none
      → verify_hmac browser crypto (some key) mac message e k p
        ≡ e (label "Invalid HMAC" ∷ []) (tick p)
  unfolding verify_hmac
  verify_hmac-Rejects key mac message e k h quiet =
      call-Delivers browser crypto _ h e
        (λ valid. if valid then k else e (label "Invalid HMAC" ∷ [])) quiet

  -- If the browser finds that the HMAC does not belong to the ciphertext, under any key of the
  -- material, then `decrypt` calls `onError` with the two labels and nothing else: whatever
  -- `onSuccess` is, it is not called.
  pub decrypt-Rejects :
      {E : Type 0} (keys : ℕ) (p : Page Key E) (aes hmac : Source) (encrypted : Encrypted)
      → Ready browser crypto laws keys p aes hmac
      → ((u : ℕ) (key : Key)
          → laws.IsHmac key (bytes hmac)
          → crypto.verify u
              (hmac_length (hmac_options_length browser))
              key
              encrypted.hmac
              encrypted.aes_encrypted
            ≡ resolve false)
      → (q : Page Key E) × Rejects (decrypt browser crypto keys encrypted) p invalid_hmac q
  unfolding decrypt load
  decrypt-Rejects keys p aes hmac encrypted ready forged =
      let (q, imports, has, same_iv) =
        import_keys-Delivers browser crypto laws keys p aes hmac ready.0 ready.1 in
      (
        tick q,
        λ e k quiet.
            let rejected =
              ap
                (λ (key : Option Key).
                  verify_hmac browser crypto key encrypted.hmac encrypted.aes_encrypted
                    (bind e "Could not verify HMAC")
                    (load keys λ later.
                      Internal.decrypt_aes browser crypto later.aes_key_obj encrypted.aes_encrypted
                        (bind e "Could not AES decrypt") k)
                    q)
                has.hmac_cached
              ∙ verify_hmac-Rejects has.hmac_obj encrypted.hmac encrypted.aes_encrypted
                  (bind e "Could not verify HMAC") _ (forged q.clock has.hmac_obj has.is_hmac)
                  quiet in
            imports e (λ _. open_sealed browser crypto laws keys encrypted e k)
              (ap (λ o. o.thrown) rejected ∙ quiet)
            ∙ rejected,
      )
