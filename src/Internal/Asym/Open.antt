-- ===== src/Internal/Asym/Open.antt =====
-- `aesDecrypt`: it opens what was sealed with the combined keys, and refuses keys of other sizes.
use crypto_security_projects.Base.{
  ℕ, suc, ◌≡◌, ◌≢◌, ◌∙◌, ap, sym, arith, subst, List, [], ◌∷◌, ◌++◌, none, some, length,
}
use crypto_security_projects.Js.{Source, array_buffer, uint8_array, undefined, bytes, Attempt, ok}
use crypto_security_projects.Config.{Browser, hmac_options_length}
use crypto_security_projects.Runtime.{
  Page, Run, Failure, Keys, label, number, attempt, stored, allocate,
}
use crypto_security_projects.Runtime.Delivery.{Delivers, objects-stored}
use crypto_security_projects.WebCrypto.{Crypto}
use crypto_security_projects.WebCrypto.Laws.{Interop}
use crypto_security_projects.Internal.Asym.{
  Split, wrong_size, split_combined, decrypt_parts, aes_decrypt, data_length, hmac_key_length,
}
use crypto_security_projects.Internal.Asym.Combined.{split_combined-append}
use crypto_security_projects.Sym.{Encrypted}
use crypto_security_projects.Sym.Open.{Ready, Openable, decrypt-Openable}

module _ (browser : Browser) (crypto : Crypto)
    (laws : Interop crypto (hmac_options_length browser)) where
  open crypto use {Key}

  -- The object that `aesDecrypt` makes of two raw keys.
  abbrev raw_object : Source → Source → Keys Key
  raw_object aes hmac = record {
    aes_key = some aes;
    hmac_key = some hmac;
    aes_key_obj = none;
    hmac_key_obj = none;
    iv = none;
  }

  abbrev with_raw : {E : Type 0} → Source → Source → Page Key E → Page Key E
  with_raw aes hmac p = record (stored p.next (raw_object aes hmac) p) { next = suc p.next }

  with_raw-Ready :
      {E : Type 0} (aes hmac : Source) (p : Page Key E)
      → length (bytes aes) ≡ 16
      → length (bytes hmac) ≡ 20
      → Ready browser crypto laws p.next (with_raw aes hmac p) aes hmac
  with_raw-Ready aes hmac p aes_sized hmac_sized =
      let found = objects-stored p.next (raw_object aes hmac) p in
      (
        record {
          aes_key = ap (λ (o : Keys Key). o.aes_key) found;
          hmac_key = ap (λ (o : Keys Key). o.hmac_key) found;
          aes_sized = aes_sized;
          hmac_sized = hmac_sized;
        },
        λ aes_obj hmac_obj there also.
            let clash : none ≡ some aes_obj =
              sym (ap (λ (o : Keys Key). o.aes_key_obj) found) ∙ there in
            cc,
      )

  pub aes_decrypt-Openable :
      {E : Type 0} (p : Page Key E) (aes hmac message : List ℕ) (encrypted : Encrypted)
      → length aes ≡ 16
      → length hmac ≡ 20
      → Openable browser crypto laws encrypted aes hmac message
      → (q : Page Key E) × Delivers
          (aes_decrypt browser crypto (array_buffer (aes ++ hmac)) encrypted)
          p
          message
          q
  unfolding aes_decrypt attempt allocate
  aes_decrypt-Openable {E} p aes hmac message encrypted aes_sized hmac_sized openable =
      let (aes', hmac', split, same_aes, same_hmac) =
        split_combined-append browser aes hmac aes_sized hmac_sized in
      let (q, decrypts) =
        decrypt-Openable browser crypto laws p.next (with_raw aes' hmac' p) aes' hmac' encrypted
          message
          (with_raw-Ready aes' hmac' p (ap length same_aes ∙ aes_sized)
            (ap length same_hmac ∙ hmac_sized))
          (subst (λ (a : List ℕ). Openable browser crypto laws encrypted a (bytes hmac') message)
            (sym same_aes)
            (subst (λ (h : List ℕ). Openable browser crypto laws encrypted aes h message)
              (sym same_hmac) openable)) in
      (
        q,
        λ e k quiet.
            ap (λ (m : Attempt Split). attempt m (decrypt_parts browser crypto encrypted e k) p)
              split
            ∙ decrypts e k quiet,
      )

-- What `aesDecrypt` looks into: an ArrayBuffer or a Uint8Array.
abbrev pub IsBuffer : Source → Type 0
IsBuffer (array_buffer bs) = Unit {0}
IsBuffer (uint8_array bs offset len) = Unit {0}
IsBuffer _ = ⊥

hmac_key_length_lem : (browser : Browser) → hmac_key_length browser ≡ 20
hmac_key_length_lem browser = ground arith

split_combined-wrong_size :
    (browser : Browser) (combined : Source)
    → IsBuffer combined
    → data_length combined ≢ 36
    → split_combined browser combined ≡ ok (wrong_size (data_length combined))
unfolding split_combined
split_combined-wrong_size browser (array_buffer bs) is_buffer size =
    ground (arith, hmac_key_length_lem browser)
split_combined-wrong_size browser (uint8_array bs offset len) is_buffer size =
    ground (arith, hmac_key_length_lem browser)
split_combined-wrong_size browser (Source.array ns) is_buffer size = absurd is_buffer
split_combined-wrong_size browser undefined is_buffer size = absurd is_buffer

-- Combined keys in a buffer of any other size than 36 bytes: `aesDecrypt` does nothing but call
-- `onError`, with the size and the two sizes it wants, in each browser.
pub aes_decrypt-wrong_size :
    (browser : Browser) (crypto : Crypto) {E : Type 0} (combined : Source) (encrypted : Encrypted)
    (on_error : Failure crypto.Key E) (on_success : List ℕ → Run crypto.Key E)
    → IsBuffer combined
    → data_length combined ≢ 36
    → aes_decrypt browser crypto combined encrypted on_error on_success
      ≡ on_error (
          label "Combined keys size is incorrect"
          ∷ number (data_length combined)
          ∷ number 16
          ∷ number 20
          ∷ [])
unfolding aes_decrypt attempt
aes_decrypt-wrong_size browser crypto combined encrypted on_error on_success is_buffer size =
    ap
      (λ (m : Attempt Split).
        attempt m (decrypt_parts browser crypto encrypted on_error on_success))
      (split_combined-wrong_size browser combined is_buffer size)
    ∙ ap
        (λ (n : ℕ). on_error (
          label "Combined keys size is incorrect"
          ∷ number (data_length combined)
          ∷ number 16
          ∷ number n
          ∷ []))
        (hmac_key_length_lem browser)
