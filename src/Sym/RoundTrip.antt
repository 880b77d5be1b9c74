-- ===== src/Sym/RoundTrip.antt =====
-- What `sym.encrypt` seals, `sym.decrypt` opens.
use crypto_security_projects.Base.{Option-transfer, subst, ℕ, ◌≢◌, ◌∙◌, ap, sym}
use crypto_security_projects.Js.{Source, undefined, bytes}
use crypto_security_projects.Config.{Browser, hmac_options_length}
use crypto_security_projects.Runtime.{Page, Keys}
use crypto_security_projects.Runtime.Delivery.{Delivers}
use crypto_security_projects.WebCrypto.{Crypto}
use crypto_security_projects.WebCrypto.Laws.{Interop}
use crypto_security_projects.Sym.{Encrypted, encrypt}
use crypto_security_projects.Sym.Import.{HasKeys, HasRaw-SameRaw, HasRaw, import_keys-Delivers}
use crypto_security_projects.Sym.Open.{Ready, Decrypts, decrypt-Openable, Openable-Sealed}
use crypto_security_projects.Sym.Seal.{IvIsGood, Sealed, seal, seal-Delivers}

module _ (browser : Browser) (crypto : Crypto)
    (laws : Interop crypto (hmac_options_length browser)) where
  open crypto use {Key}

  module _ {E : Type 0} (keys : ℕ) where
    -- An object with both raw keys and good cached ones is ready for use.
    HasKeys-Ready :
        (q : Page Key E) (aes hmac : Source)
        → HasRaw browser crypto laws (q.objects keys) aes hmac
        → HasKeys browser crypto laws (q.objects keys) (bytes aes) (bytes hmac)
        → Ready browser crypto laws keys q aes hmac
    HasKeys-Ready q aes hmac raw has = (
      raw,
      λ a h aes_there hmac_there. (
        Option-transfer (λ (key : Key). laws.IsAes key (bytes aes)) (q.objects keys).aes_key_obj
            has.aes_cached aes_there has.is_aes,
        Option-transfer (λ (key : Key). laws.IsHmac key (bytes hmac)) (q.objects keys).hmac_key_obj
            has.hmac_cached hmac_there has.is_hmac,
      ),
    )

    pub encrypt-Sealed :
        (p : Page Key E) (aes hmac message : Source)
        → Ready browser crypto laws keys p aes hmac
        → IvIsGood browser crypto laws (p.objects keys)
        → message ≢ undefined
        → (encrypted : Encrypted) × (q : Page Key E) × Delivers
            (encrypt browser crypto keys message)
            p
            encrypted
            q
          × Ready browser crypto laws keys q aes hmac
          × Sealed browser crypto laws encrypted (bytes aes) (bytes hmac) (bytes message)
    unfolding encrypt
    encrypt-Sealed p aes hmac message ready good defined =
        let (p₁, imports, has, kept) =
          import_keys-Delivers browser crypto laws keys p aes hmac ready.0 ready.1 in
        let (encrypted, q, seals, same, sealed) =
          seal-Delivers browser crypto laws keys p₁ (bytes aes) (bytes hmac) message has
            (λ iv there. good iv (sym kept.iv ∙ there)) defined in
        (
          encrypted,
          q,
          λ e k quiet.
              let last = seals e k quiet in
              imports e (λ _. seal browser crypto laws keys message e k)
                (ap (λ o. o.thrown) last ∙ quiet)
              ∙ last,
          HasKeys-Ready q aes hmac
              (subst
                (λ (objects : ℕ → Keys Key). HasRaw browser crypto laws (objects keys) aes hmac)
                (sym same) (HasRaw-SameRaw browser crypto laws kept ready.0))
              (subst
                (λ (objects : ℕ → Keys Key).
                  HasKeys browser crypto laws (objects keys) (bytes aes) (bytes hmac))
                (sym same) has),
          sealed,
        )

  -- With usable keys and a defined message, `encrypt` hands an encrypted message to `onSuccess`.
  -- `decrypt` then hands the bytes of the message to its own `onSuccess`, whenever it is called and
  -- with whatever keys object of the same raw keys.
  pub decrypt-encrypt :
      {E : Type 0} (keys : ℕ) (p : Page Key E) (aes hmac message : Source)
      → Ready browser crypto laws keys p aes hmac
      → IvIsGood browser crypto laws (p.objects keys)
      → message ≢ undefined
      → (encrypted : Encrypted) × (q : Page Key E) × Delivers
          (encrypt browser crypto keys message)
          p
          encrypted
          q
        × ((keys' : ℕ) (r : Page Key E)
            → Ready browser crypto laws keys' r aes hmac
            → Decrypts browser crypto laws keys' r encrypted (bytes message))
  decrypt-encrypt keys p aes hmac message ready good defined =
      let (encrypted, q, seals, raw, sealed) =
        encrypt-Sealed keys p aes hmac message ready good defined in
      (
        encrypted,
        q,
        seals,
        λ keys' r ready'.
            decrypt-Openable browser crypto laws keys' r aes hmac encrypted (bytes message) ready' (
              Openable-Sealed browser crypto laws encrypted (bytes aes) (bytes hmac) (bytes message)
                sealed),
      )
