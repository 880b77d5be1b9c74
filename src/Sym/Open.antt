-- ===== src/Sym/Open.antt =====
-- `sym.decrypt` of a sealed message, in the buffers in which it was made or in others.
use crypto_security_projects.Base.{subst, refl, true, ◌≡◌, ℕ, suc, ◌∙◌, ap, sym, List, Option}
use crypto_security_projects.Js.{Source, bytes}
use crypto_security_projects.Config.{Browser, hmac_options_length}
use crypto_security_projects.Runtime.{Run, Failure, Page, resolve, tick, load, bind}
use crypto_security_projects.Runtime.Delivery.{Delivers}
use crypto_security_projects.WebCrypto.{Crypto, aes_cbc_iv, hmac_length}
use crypto_security_projects.WebCrypto.Laws.{Interop}
use crypto_security_projects.Internal.Sym as Internal
use crypto_security_projects.Internal.Sym.Steps.{
  Splits, IsWhole, Splits-append, verify_hmac-Delivers, decrypt_aes-Delivers,
}
use crypto_security_projects.Sym.{Encrypted, decrypt}
use crypto_security_projects.Sym.Import.{HasRaw, HasKeys, CacheIsGood, import_keys-Delivers}
use crypto_security_projects.Sym.Seal.{Sealed}

module _ (browser : Browser) (crypto : Crypto)
    (laws : Interop crypto (hmac_options_length browser)) where
  open crypto use {Key}

  -- Keys objects that are ready for use with the given raw keys.
  abbrev pub Ready : {E : Type 0} → ℕ → Page Key E → Source → Source → Type 0
  Ready keys p aes hmac =
      HasRaw browser crypto laws (p.objects keys) aes hmac
      × CacheIsGood browser crypto laws keys p aes hmac

  -- What keys of the material open and verify.
  pub record Openable (encrypted : Encrypted) (aes hmac message : List ℕ) : Type 0 where
    pub iv : List ℕ
    pub cipher : List ℕ
    pub splits : Splits encrypted.aes_encrypted iv cipher
    pub opens :
        (u : ℕ) (key : Key) (iv' cipher' : Source)
        → laws.IsAes key aes
        → bytes iv' ≡ iv
        → bytes cipher' ≡ cipher
        → crypto.decrypt u (aes_cbc_iv iv') key cipher' ≡ resolve message
    pub verifies :
        (u : ℕ) (key : Key)
        → laws.IsHmac key hmac
        → crypto.verify u
            (hmac_length (hmac_options_length browser))
            key
            encrypted.hmac
            encrypted.aes_encrypted
          ≡ resolve true

  -- A sealed message can be opened in any buffers with its bytes.
  pub Sealed-Openable :
      (sent received : Encrypted) (aes hmac message : List ℕ)
      → Sealed browser crypto laws sent aes hmac message
      → IsWhole received.aes_encrypted
      → bytes received.aes_encrypted ≡ bytes sent.aes_encrypted
      → bytes received.hmac ≡ bytes sent.hmac
      → Openable received aes hmac message
  Sealed-Openable sent received aes hmac message sealed whole same_aes same_hmac =
      let aes_bytes = same_aes ∙ ap (λ (e : Encrypted). bytes e.aes_encrypted) sealed.is_sealed in
      let mac_bytes = same_hmac ∙ ap (λ (e : Encrypted). bytes e.hmac) sealed.is_sealed in
      record {
        iv = sealed.iv;
        cipher = sealed.cipher;
        splits =
            Splits-append received.aes_encrypted sealed.iv sealed.cipher whole aes_bytes
              sealed.sized;
        opens = sealed.opens;
        verifies = λ u key is_hmac.
            sealed.verifies u key received.hmac received.aes_encrypted is_hmac mac_bytes aes_bytes;
      }

  -- And where it is.
  pub Openable-Sealed :
      (encrypted : Encrypted) (aes hmac message : List ℕ)
      → Sealed browser crypto laws encrypted aes hmac message
      → Openable encrypted aes hmac message
  Openable-Sealed encrypted aes hmac message sealed =
      Sealed-Openable encrypted encrypted aes hmac message sealed
        (subst (λ (e : Encrypted). IsWhole e.aes_encrypted) (sym sealed.is_sealed) tt) refl refl

  module _ {E : Type 0} (keys : ℕ) where
    -- The part of `decrypt` behind the import.
    abbrev pub open_sealed : Encrypted → Failure Key E → (List ℕ → Run Key E) → Run Key E
    open_sealed encrypted e k = load keys λ object.
        Internal.verify_hmac browser crypto object.hmac_key_obj encrypted.hmac
          encrypted.aes_encrypted (bind e "Could not verify HMAC")
          (load keys λ later.
            Internal.decrypt_aes browser crypto later.aes_key_obj encrypted.aes_encrypted
              (bind e "Could not AES decrypt") k)

    open-Delivers :
        (p : Page Key E) (aes hmac message : List ℕ) (encrypted : Encrypted)
        → HasKeys browser crypto laws (p.objects keys) aes hmac
        → Openable encrypted aes hmac message
        → Delivers (open_sealed encrypted) p message (tick (tick p))
    unfolding load
    open-Delivers p aes hmac message encrypted has openable e k quiet =
        let unlock : Option Key → Run Key E = λ key.
          Internal.decrypt_aes browser crypto key encrypted.aes_encrypted
            (bind e "Could not AES decrypt") k in
        let opened =
          ap (λ (key : Option Key). unlock key (tick p)) has.aes_cached
          ∙ decrypt_aes-Delivers browser crypto has.aes_obj encrypted.aes_encrypted openable.iv
              openable.cipher openable.splits
              (λ iv' cipher' same_iv same_cipher.
                openable.opens (suc p.clock) has.aes_obj iv' cipher' has.is_aes same_iv same_cipher)
              (bind e "Could not AES decrypt") k quiet in
        ap
          (λ (key : Option Key).
            Internal.verify_hmac browser crypto key encrypted.hmac encrypted.aes_encrypted
              (bind e "Could not verify HMAC") (load keys λ later. unlock later.aes_key_obj) p)
          has.hmac_cached
        ∙ verify_hmac-Delivers browser crypto has.hmac_obj encrypted.hmac encrypted.aes_encrypted
            (openable.verifies p.clock has.hmac_obj has.is_hmac) (bind e "Could not verify HMAC")
            (λ _. load keys λ later. unlock later.aes_key_obj) (ap (λ o. o.thrown) opened ∙ quiet)
        ∙ opened

    -- `decrypt` delivers the message.
    abbrev pub Decrypts : Page Key E → Encrypted → List ℕ → Type 0
    Decrypts p encrypted message =
        (q : Page Key E) × Delivers (decrypt browser crypto keys encrypted) p message q

    pub decrypt-Openable :
        (p : Page Key E) (aes hmac : Source) (encrypted : Encrypted) (message : List ℕ)
        → Ready keys p aes hmac
        → Openable encrypted (bytes aes) (bytes hmac) message
        → Decrypts p encrypted message
    unfolding decrypt
    decrypt-Openable p aes hmac encrypted message ready openable =
        let (q, imports, has, same_iv) =
          import_keys-Delivers browser crypto laws keys p aes hmac ready.0 ready.1 in
        (
          tick (tick q),
          λ e k quiet.
              let opened =
                open-Delivers q (bytes aes) (bytes hmac) message encrypted has openable e k quiet in
              imports e (λ _. open_sealed encrypted e k) (ap (λ o. o.thrown) opened ∙ quiet)
              ∙ opened,
        )
