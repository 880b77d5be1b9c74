-- ===== src/Sym/Import.antt =====
-- `sym.importKeys` where the browser accepts the raw keys: afterwards the object holds usable keys.
use crypto_security_projects.Base.{
  ℕ, suc, ◌≡◌, ◌∙◌, refl, ap, Bool, true, false, List, [], ◌∷◌, Option, some, Option-cases, inl,
  inr, length, if◌then◌else◌, ◌&&◌,
}
use crypto_security_projects.Js.{Source, bytes}
use crypto_security_projects.Config.{Browser, hmac_options_length}
use crypto_security_projects.Runtime.{Run, Page, Keys, label, tick, stored, load, save, bind}
use crypto_security_projects.Runtime.Delivery.{Delivers, objects-stored}
use crypto_security_projects.WebCrypto.{Crypto}
use crypto_security_projects.WebCrypto.Laws.{Interop}
use crypto_security_projects.Internal.Sym.{import_key_aes, import_key_hmac}
use crypto_security_projects.Internal.Sym.Steps.{call-Delivers}
use crypto_security_projects.Sym.{property, has, import_raw_keys, import_keys}

module _ (browser : Browser) (crypto : Crypto)
    (laws : Interop crypto (hmac_options_length browser)) where
  open crypto use {Key}

  -- The object has raw keys of the right sizes.
  pub record HasRaw (object : Keys Key) (aes hmac : Source) : Type 0 where
    pub aes_key : object.aes_key ≡ some aes
    pub hmac_key : object.hmac_key ≡ some hmac
    pub aes_sized : length (bytes aes) ≡ 16
    pub hmac_sized : length (bytes hmac) ≡ 20

  -- The two objects differ in the imported keys at most.
  pub record SameRaw (object other : Keys Key) : Type 0 where
    pub aes_key : object.aes_key ≡ other.aes_key
    pub hmac_key : object.hmac_key ≡ other.hmac_key
    pub iv : object.iv ≡ other.iv

  pub HasRaw-SameRaw :
      {object other : Keys Key} {aes hmac : Source}
      → SameRaw object other
      → HasRaw other aes hmac
      → HasRaw object aes hmac
  HasRaw-SameRaw same raw = record {
    aes_key = same.aes_key ∙ raw.aes_key;
    hmac_key = same.hmac_key ∙ raw.hmac_key;
    aes_sized = raw.aes_sized;
    hmac_sized = raw.hmac_sized;
  }

  -- The object has imported keys of the given material.
  pub record HasKeys (object : Keys Key) (aes hmac : List ℕ) : Type 0 where
    pub aes_obj : Key
    pub hmac_obj : Key
    pub aes_cached : object.aes_key_obj ≡ some aes_obj
    pub hmac_cached : object.hmac_key_obj ≡ some hmac_obj
    pub is_aes : laws.IsAes aes_obj aes
    pub is_hmac : laws.IsHmac hmac_obj hmac

  module _ {E : Type 0} (keys : ℕ) (p : Page Key E) where
    abbrev object : Keys Key
    object = p.objects keys

    -- What the two imports make of the page.
    abbrev with_aes : Key → Page Key E
    with_aes aes_obj = stored keys (record object { aes_key_obj = some aes_obj }) (tick p)

    abbrev imported : Key → Key → Page Key E
    imported aes_obj hmac_obj =
        stored keys (record ((with_aes aes_obj).objects keys) { hmac_key_obj = some hmac_obj })
          (tick (with_aes aes_obj))

    -- The second half of `import_raw_keys`, on the page that the first half leaves.
    import_hmac-Delivers :
        (aes_obj : Key) (hmac : Source)
        → object.hmac_key ≡ some hmac
        → length (bytes hmac) ≡ 20
        → (hmac_obj : Key) × Delivers {A = Unit {0}}
            (λ e k.
              import_key_hmac browser crypto
                (property ((with_aes aes_obj).objects keys).hmac_key)
                e
                λ hmac_obj.
                  load keys
                    λ before. save keys (record before { hmac_key_obj = some hmac_obj }) (k tt))
            (with_aes aes_obj)
            tt
            (imported aes_obj hmac_obj)
          × laws.IsHmac hmac_obj (bytes hmac)
    unfolding import_key_hmac load save
    import_hmac-Delivers aes_obj hmac found sized =
        let (hmac_obj, accepted, is_hmac) = laws.import_hmac (suc p.clock) hmac sized in
        let kept : property ((with_aes aes_obj).objects keys).hmac_key ≡ hmac =
          ap (λ (o : Keys Key). property o.hmac_key)
            (objects-stored keys (record object { aes_key_obj = some aes_obj }) (tick p))
          ∙ ap property found in
        (
          hmac_obj,
          λ e k quiet.
              call-Delivers browser crypto _ (rw kept accepted) e
                (λ key.
                  load keys λ before. save keys (record before { hmac_key_obj = some key }) (k tt))
                quiet,
          is_hmac,
        )

    import_raw_keys-Delivers :
        (aes hmac : Source)
        → HasRaw object aes hmac
        → (aes_obj : Key) × (hmac_obj : Key) × Delivers {A = Unit {0}}
            (λ e k. import_raw_keys browser crypto keys object e (k tt))
            p
            tt
            (imported aes_obj hmac_obj)
          × laws.IsAes aes_obj (bytes aes)
          × laws.IsHmac hmac_obj (bytes hmac)
    unfolding import_raw_keys import_key_aes load save
    import_raw_keys-Delivers aes hmac raw =
        let (aes_obj, accepted, is_aes) = laws.import_aes p.clock aes raw.aes_sized in
        let (hmac_obj, second, is_hmac) =
          import_hmac-Delivers aes_obj hmac raw.hmac_key raw.hmac_sized in
        (
          aes_obj,
          hmac_obj,
          λ e k quiet.
              let last = second (bind e "Could not import HMAC key") k quiet in
              call-Delivers browser crypto _ (rw (ap property raw.aes_key) accepted)
                (bind e "Could not import AES key") _ (ap (λ o. o.thrown) last ∙ quiet)
              ∙ last,
          is_aes,
          is_hmac,
        )

    -- What the object holds after the two imports.
    imported-object :
        (aes_obj hmac_obj : Key)
        → (imported aes_obj hmac_obj).objects keys
          ≡ record object { aes_key_obj = some aes_obj; hmac_key_obj = some hmac_obj }
    imported-object aes_obj hmac_obj =
        objects-stored keys
          (record ((with_aes aes_obj).objects keys) { hmac_key_obj = some hmac_obj })
          (tick (with_aes aes_obj))
        ∙ ap (λ (o : Keys Key). record o { hmac_key_obj = some hmac_obj })
            (objects-stored keys (record object { aes_key_obj = some aes_obj }) (tick p))

    -- If both keys are there already, they are good ones.
    abbrev pub CacheIsGood : Source → Source → Type 0
    CacheIsGood aes hmac =
        (aes_obj hmac_obj : Key)
        → object.aes_key_obj ≡ some aes_obj
        → object.hmac_key_obj ≡ some hmac_obj
        → laws.IsAes aes_obj (bytes aes) × laws.IsHmac hmac_obj (bytes hmac)

    -- `importKeys` ends on a page whose object has good keys, and the iv that it had.
    abbrev pub Imports : Source → Source → Type 0
    Imports aes hmac =
        (q : Page Key E) × Delivers {A = Unit {0}} (λ e k. import_keys browser crypto keys e (k tt))
          p tt q
        × HasKeys (q.objects keys) (bytes aes) (bytes hmac)
        × SameRaw (q.objects keys) object

    import_keys_raw :
        (aes hmac : Source)
        → HasRaw object aes hmac
        → (has object.aes_key_obj && has object.hmac_key_obj) ≡ false
        → Imports aes hmac
    unfolding import_keys load
    import_keys_raw aes hmac raw missing =
        let (aes_obj, hmac_obj, delivers, is_aes, is_hmac) =
          import_raw_keys-Delivers aes hmac raw in
        let holds = imported-object aes_obj hmac_obj in
        let given : (has object.aes_key && has object.hmac_key) ≡ true =
          ap (λ (o : Option Source). has o && has object.hmac_key) raw.aes_key
          ∙ ap (λ (o : Option Source). has o) raw.hmac_key in
        (
          imported aes_obj hmac_obj,
          λ e k quiet.
              let imports : Run Key E = import_raw_keys browser crypto keys object e (k tt) in
              let refuses : Run Key E = e (label "Missing keys" ∷ []) in
              ap
                (λ (b : Bool).
                  (if b
                      then k tt
                      else if has object.aes_key && has object.hmac_key
                      then imports
                      else refuses)
                    p)
                missing
              ∙ ap (λ (b : Bool). (if b then imports else refuses) p) given
              ∙ delivers e k quiet,
          record {
            aes_obj = aes_obj;
            hmac_obj = hmac_obj;
            aes_cached = ap (λ (o : Keys Key). o.aes_key_obj) holds;
            hmac_cached = ap (λ (o : Keys Key). o.hmac_key_obj) holds;
            is_aes = is_aes;
            is_hmac = is_hmac;
          },
          record {
            aes_key = ap (λ (o : Keys Key). o.aes_key) holds;
            hmac_key = ap (λ (o : Keys Key). o.hmac_key) holds;
            iv = ap (λ (o : Keys Key). o.iv) holds;
          },
        )

    -- With both keys there, nothing is asked of the browser and the page stays as it is.
    import_keys_cached :
        (aes hmac : Source) (aes_obj hmac_obj : Key)
        → object.aes_key_obj ≡ some aes_obj
        → object.hmac_key_obj ≡ some hmac_obj
        → CacheIsGood aes hmac
        → Imports aes hmac
    unfolding import_keys load
    import_keys_cached aes hmac aes_obj hmac_obj aes_there hmac_there good =
        let (is_aes, is_hmac) = good aes_obj hmac_obj aes_there hmac_there in
        let given : (has object.aes_key_obj && has object.hmac_key_obj) ≡ true =
          ap (λ (o : Option Key). has o && has object.hmac_key_obj) aes_there
          ∙ ap (λ (o : Option Key). has o) hmac_there in
        (
          p,
          λ e k quiet.
              ap
                (λ (b : Bool).
                  (if b
                      then k tt
                      else if has object.aes_key && has object.hmac_key
                      then import_raw_keys browser crypto keys object e (k tt)
                      else e (label "Missing keys" ∷ []))
                    p)
                given,
          record {
            aes_obj = aes_obj;
            hmac_obj = hmac_obj;
            aes_cached = aes_there;
            hmac_cached = hmac_there;
            is_aes = is_aes;
            is_hmac = is_hmac;
          },
          record { aes_key = refl; hmac_key = refl; iv = refl },
        )

    pub import_keys-Delivers :
        (aes hmac : Source) → HasRaw object aes hmac → CacheIsGood aes hmac → Imports aes hmac
    import_keys-Delivers aes hmac raw good = elim (Option-cases object.aes_key_obj) [
      | inl lacks ↦
          import_keys_raw aes hmac raw
            (ap (λ (o : Option Key). has o && has object.hmac_key_obj) lacks)
      | inr (aes_obj, aes_there) ↦ elim (Option-cases object.hmac_key_obj) [
        | inl lacks ↦ import_keys_raw aes hmac raw (
            ap (λ (o : Option Key). has o && has object.hmac_key_obj) aes_there
            ∙ ap (λ (o : Option Key). has o) lacks)
        | inr (hmac_obj, hmac_there) ↦
            import_keys_cached aes hmac aes_obj hmac_obj aes_there hmac_there good
      ]
    ]
