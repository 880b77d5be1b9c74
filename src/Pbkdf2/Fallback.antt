-- ===== src/Pbkdf2/Fallback.antt =====
-- `pbkdf2.derive` in a browser without PBKDF2.
use crypto_security_projects.Base.{
  ℕ, suc, ◌*◌, ◌<◌, ◌≤◌, ◌≡◌, ◌≢◌, ◌⊎◌, inl, inr, ◌∙◌, ap, false, some, none, List, [], ◌∷◌, arith,
}
use crypto_security_projects.Base.Int.{pos}
use crypto_security_projects.Js.{Exn, Source, undefined, bytes}
use crypto_security_projects.Config.{Browser}
use crypto_security_projects.Runtime.{
  Page, Outcome, Run, Settled, reject, refuse, bind, tick, wrap, ask, catching,
}
use crypto_security_projects.Runtime.Delivery.{Delivers, detached_quiet}
use crypto_security_projects.WebCrypto.{Crypto, Usage, pbkdf2}
use crypto_security_projects.Util.{string_to_bytes}
use crypto_security_projects.Internal.Sym.{call}
use crypto_security_projects.Internal.Pbkdf2.{Options, result, password_to_key, derive_bits}
use crypto_security_projects.Internal.Pbkdf2.Standard.{derived_key}
use crypto_security_projects.Internal.Pbkdf2.Compat.{HmacOf, Chooses, compat_derive_chosen}
use crypto_security_projects.Pbkdf2.{derive, derive_compat}

-- The operation fails, through its promise or by an exception.
abbrev pub Fails {ℓ} : {A : Type ℓ} → Settled A → Type ℓ
Fails settled = (x : Exn) × ((settled ≡ reject x) ⊎ (settled ≡ refuse x))

module _ (browser : Browser) (crypto : Crypto) {E : Type 0} where
  open crypto use {Key}

  -- What `catching` makes of an outcome.
  abbrev handled : Run Key E → Outcome Key E → Outcome Key E
  handled m o = elim o.thrown [ none ↦ o | some x ↦ m o.page ]

  handled_quiet : (m : Run Key E) (o : Outcome Key E) → o.thrown ≡ none → handled m o ≡ o
  handled_quiet m o quiet = ground arith

  -- A call that fails runs `onError`, or leaves its exception to the `catch` around it.
  call_failed :
      {A : Type 0} (operation : ℕ → Settled A) (p : Page Key E) (m : Run Key E) (k : A → Run Key E)
      → Fails (operation p.clock)
      → (m (tick p)).thrown ≡ none
      → catching (call browser crypto operation (λ args. m) k) (λ x. m) p ≡ m (tick p)
  unfolding call ask wrap catching
  call_failed {A} operation p m k (x, inl rejected) quiet =
      let once = detached_quiet m (tick p) quiet in
      ap (λ (s : Settled A). handled m (wrap browser.has_then s (λ args. m) k (tick p))) rejected
      ∙ handled_quiet m _ (ap (λ o. o.thrown) once ∙ quiet)
      ∙ once
  call_failed {A} operation p m k (x, inr refused) quiet =
      ap (λ (s : Settled A). handled m (wrap browser.has_then s (λ args. m) k (tick p))) refused

module _ (browser : Browser) (crypto : Crypto) (password : List ℕ) (prf : List ℕ → List ℕ)
    (mac : HmacOf crypto password prf) {E : Type 0} where
  open crypto use {Key}

  pub derive_chosen :
      (options : Options) (salt : Source) (c n : ℕ) (p q : Page Key E)
      → Fails (
          crypto.import_raw p.clock
            (string_to_bytes password)
            pbkdf2
            false
            (Usage.derive_bits ∷ []))
      → Chooses browser crypto options (tick p) salt c q
      → salt ≢ undefined
      → 0 < n
      → n ≤ 5100
      → (r : Page Key E) × Delivers
          (derive browser crypto password (n * 8) options)
          p
          (result salt (some (pos (suc c))) (derived_key prf (bytes salt) (suc c) n))
          r
  unfolding derive password_to_key
  derive_chosen options salt c n p q fails chooses defined positive small =
      let (r, compat) =
        compat_derive_chosen browser crypto password prf mac options salt c n (tick p) q chooses
          defined positive small in
      (
        r,
        λ e k quiet.
            let last = compat (bind e "Compat: could not derive bits") k quiet in
            call_failed browser crypto _ p
              (derive_compat browser crypto password (n * 8) options e k)
              (λ key.
                derive_bits browser crypto key (n * 8) options (bind e "Could not derive bits") k)
              fails (ap (λ o. o.thrown) last ∙ quiet)
            ∙ last,
      )
