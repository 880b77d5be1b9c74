-- ===== src/Sym/Seal.antt =====
-- `sym.encrypt` behind the import of the keys: what it delivers.
use crypto_security_projects.Base.{
  ℕ, suc, ◌≡◌, ◌≢◌, ◌∙◌, refl, ap, true, List, ◌++◌, Option, some, Option-cases, inl, inr, length,
  take-length,
}
use crypto_security_projects.Js.{Source, array_buffer, undefined, bytes, fresh}
use crypto_security_projects.Config.{Browser, hmac_options_length, aes_iv_length}
use crypto_security_projects.Runtime.{
  Run, Failure, Page, Keys, Settled, resolve, tick, load, bind, ask,
}
use crypto_security_projects.Runtime.Delivery.{Delivers}
use crypto_security_projects.WebCrypto.{Crypto, aes_cbc_iv, hmac_length}
use crypto_security_projects.WebCrypto.Laws.{Interop}
use crypto_security_projects.Internal.Sym as Internal
use crypto_security_projects.Internal.Sym.Steps.{encrypt-Delivers, sign_hmac-Delivers}
use crypto_security_projects.Sym.{Encrypted, choose_iv}
use crypto_security_projects.Sym.Import.{HasKeys}

module _ (browser : Browser) (crypto : Crypto)
    (laws : Interop crypto (hmac_options_length browser)) where
  open crypto use {Key}

  -- An iv that the caller has put into the keys has the right size.
  abbrev pub IvIsGood : Keys Key → Type 0
  IvIsGood object =
      (iv : Source) → object.iv ≡ some iv → (length (bytes iv) ≡ aes_iv_length) × (iv ≢ undefined)

  -- An iv of the right size, and a page with the same objects.
  abbrev Chooses : {E : Type 0} → Keys Key → Page Key E → Type 0
  Chooses {E} object p =
      (iv : Source) × (q : Page Key E) × ((k : Source → Run Key E)
        → choose_iv browser crypto object k p ≡ k iv q)
      × (length (bytes iv) ≡ aes_iv_length)
      × (iv ≢ undefined)
      × (q.objects ≡ p.objects)

  choose_iv_lem :
      {E : Type 0} (object : Keys Key) (p : Page Key E) → IvIsGood object → Chooses object p
  unfolding choose_iv ask
  choose_iv_lem object p good = elim (Option-cases object.iv) [
    | inl missing ↦
        let random = crypto.random_bytes p.clock aes_iv_length in
        (
          fresh random,
          tick p,
          λ k. rw (choose_iv, missing),
          ap length (take-length random) ∙ laws.length-random_bytes p.clock aes_iv_length,
          λ e. cc,
          refl,
        )
    | inr (iv, given) ↦
        (iv, p, λ k. rw (choose_iv, given), (good iv given).0, (good iv given).1, refl)
  ]

  -- Bytes that an operation of the browser on a key has given.
  abbrev pub Made : (ℕ → Key → Source → Source → Settled (List ℕ)) → List ℕ → Type 0
  Made operation bs =
      (t : ℕ) × (key : Key) × (a : Source) × (b : Source) × (operation t key a b ≡ resolve bs)

  -- A sealed message: an iv and a ciphertext that keys of the material open, with an HMAC that
  -- they verify.
  pub record Sealed (encrypted : Encrypted) (aes hmac message : List ℕ) : Type 0 where
    pub iv : List ℕ
    pub cipher : List ℕ
    pub mac : List ℕ
    pub sized : length iv ≡ 16
    pub is_sealed :
        encrypted ≡ record { aes_encrypted = array_buffer (iv ++ cipher); hmac = array_buffer mac }
    pub opens :
        (u : ℕ) (key : Key) (iv' cipher' : Source)
        → laws.IsAes key aes
        → bytes iv' ≡ iv
        → bytes cipher' ≡ cipher
        → crypto.decrypt u (aes_cbc_iv iv') key cipher' ≡ resolve message
    pub verifies :
        (u : ℕ) (key : Key) (mac' sealed' : Source)
        → laws.IsHmac key hmac
        → bytes mac' ≡ mac
        → bytes sealed' ≡ iv ++ cipher
        → crypto.verify u (hmac_length (hmac_options_length browser)) key mac' sealed'
          ≡ resolve true
    -- Where the browser has made the ciphertext and the HMAC.
    pub cipher_made :
        Made (λ t. λ (key : Key). λ a. λ b. crypto.encrypt t (aes_cbc_iv a) key b) cipher
    pub made_of : bytes cipher_made.3 ≡ message
    pub mac_made :
        Made
          (λ t. λ (key : Key).
            λ a. λ b. crypto.sign t (hmac_length (hmac_options_length browser)) key b)
          mac

  module _ {E : Type 0} (keys : ℕ) where
    -- The part of `encrypt` behind the import, and the part behind the AES encryption.
    abbrev sign_sealed : Failure Key E → (Encrypted → Run Key E) → Source → Run Key E
    sign_sealed e k aes_encrypted = load keys λ later.
        Internal.sign_hmac browser crypto later.hmac_key_obj aes_encrypted
          (bind e "Could not HMAC sign")
          λ mac. k (record { aes_encrypted = aes_encrypted; hmac = array_buffer mac })

    abbrev pub seal : Source → Failure Key E → (Encrypted → Run Key E) → Run Key E
    seal message e k = load keys λ object. choose_iv browser crypto object λ iv.
        Internal.encrypt browser crypto object.aes_key_obj iv message
          (bind e "Could not AES Encrypt") (sign_sealed e k)

    pub seal-Delivers :
        (p : Page Key E) (aes hmac : List ℕ) (message : Source)
        → HasKeys browser crypto laws (p.objects keys) aes hmac
        → IvIsGood (p.objects keys)
        → message ≢ undefined
        → (encrypted : Encrypted) × (q : Page Key E) × Delivers (seal message) p encrypted q
          × (q.objects ≡ p.objects)
          × Sealed encrypted aes hmac (bytes message)
    unfolding load
    seal-Delivers p aes hmac message has good defined =
        let (iv, p₁, chosen, sized, iv_defined, same) = choose_iv_lem (p.objects keys) p good in
        let (cipher, encrypts, opens) =
          laws.aes_cbc_inverse p₁.clock has.aes_obj aes iv message has.is_aes sized defined in
        let sealed = array_buffer (bytes iv ++ cipher) in
        let (mac, signs, verifies) =
          laws.hmac_verifies (suc p₁.clock) has.hmac_obj hmac sealed has.is_hmac (λ e. cc) in
        let there : ((tick p₁).objects keys).hmac_key_obj ≡ some has.hmac_obj =
          ap (λ (objects : ℕ → Keys Key). (objects keys).hmac_key_obj) same ∙ has.hmac_cached in
        (
          record { aes_encrypted = sealed; hmac = array_buffer mac },
          tick (tick p₁),
          λ e k quiet.
              let finish : List ℕ → Run Key E =
                λ mac. k (record { aes_encrypted = sealed; hmac = array_buffer mac }) in
              let signed =
                ap
                  (λ (key : Option Key).
                    Internal.sign_hmac browser crypto key sealed (bind e "Could not HMAC sign")
                      finish (tick p₁))
                  there
                ∙ sign_hmac-Delivers browser crypto has.hmac_obj sealed signs
                    (bind e "Could not HMAC sign") finish quiet in
              chosen _
              ∙ ap
                  (λ (key : Option Key).
                    Internal.encrypt browser crypto key iv message (bind e "Could not AES Encrypt")
                      (sign_sealed e k) p₁)
                  has.aes_cached
              ∙ encrypt-Delivers browser crypto has.aes_obj iv message iv_defined encrypts
                  (bind e "Could not AES Encrypt") (sign_sealed e k)
                  (ap (λ o. o.thrown) signed ∙ quiet)
              ∙ signed,
          same,
          record {
            iv = bytes iv;
            cipher = cipher;
            mac = mac;
            sized = sized;
            is_sealed = refl;
            opens = opens;
            verifies = verifies;
            cipher_made = (p₁.clock, has.aes_obj, iv, message, encrypts);
            made_of = refl;
            mac_made = (suc p₁.clock, has.hmac_obj, sealed, sealed, signs);
          },
        )
