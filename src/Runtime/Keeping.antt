-- ===== src/Runtime/Keeping.antt =====
-- Runs that change no raw key of any object of the page.
use crypto_security_projects.Base.{
  ℕ, Option-cases, inl, inr, Bool, true, false, Bool-cases, ◌==◌, ==_iff, List, [], ◌∷◌, ◌≡◌, ◌∙◌,
  refl, subst, if◌then◌else◌,
}
use crypto_security_projects.Js.{Exn, Attempt, ok, throw, stuck}
use crypto_security_projects.Runtime.{
  Arg, exn, Keys, Page, Run, Failure, Settled, resolve, reject, refuse, wrap, catching, detached,
  attempt, ask, load, save, stored, tick, emit,
}

module _ {K E : Type 0} where
  -- The second page has the raw keys of the first one, at every address.
  abbrev pub Kept : Page K E → Page K E → Type 0
  Kept p q =
      (r : ℕ)
      → ((q.objects r).aes_key ≡ (p.objects r).aes_key)
        × ((q.objects r).hmac_key ≡ (p.objects r).hmac_key)

  abbrev pub Keeps : Run K E → Type 0
  Keeps m = (p : Page K E) → Kept p (m p).page

  Kept-then : (p q s : Page K E) → Kept p q → Kept q s → Kept p s
  Kept-then p q s first second r = ((second r).0 ∙ (first r).0, (second r).1 ∙ (first r).1)

  pub emit-Keeps : (e : E) → Keeps (emit e)
  emit-Keeps e p r = (refl, refl)

  catching-Keeps :
      (m : Run K E) (h : Exn → Run K E) → Keeps m → ((x : Exn) → Keeps (h x)) → Keeps (catching m h)
  unfolding catching
  catching-Keeps m h km kh p = elim (Option-cases (m p).thrown) [
    | inl quiet ↦ rw (catching, quiet) (km p)
    | inr (x, loud) ↦
        rw (catching, loud) (Kept-then p (m p).page (h x (m p).page).page (km p) (kh x (m p).page))
  ]

  detached-Keeps : (m : Run K E) → Keeps m → Keeps (detached m)
  unfolding detached
  detached-Keeps m km p = elim (Option-cases (m p).thrown) [
    | inl quiet ↦ rw (detached, quiet) (km p)
    | inr (x, loud) ↦ rw (detached, loud) (km p)
  ]

  pub wrap-Keeps {ℓ} :
      {A : Type ℓ} (has_then : Bool) (settled : Settled A) (e : Failure K E) (k : A → Run K E)
      → ((args : List Arg) → Keeps (e args))
      → ((a : A) → Keeps (k a))
      → Keeps (wrap has_then settled e k)
  unfolding wrap
  wrap-Keeps has_then (refuse x) e k ke kk = λ p r. (refl, refl)
  wrap-Keeps has_then (reject x) e k ke kk = detached-Keeps (e (exn x ∷ [])) (ke _)
  wrap-Keeps true (resolve a) e k ke kk =
      detached-Keeps (catching (k a) (λ x. e (exn x ∷ [])))
        (catching-Keeps (k a) (λ x. e (exn x ∷ [])) (kk a) (λ x. ke _))
  wrap-Keeps false (resolve a) e k ke kk = detached-Keeps (k a) (kk a)

  pub attempt-Keeps {ℓ} :
      {A : Type ℓ} (m : Attempt A) (k : A → Run K E) → ((a : A) → Keeps (k a)) → Keeps (attempt m k)
  unfolding attempt
  attempt-Keeps (ok a) k kk = kk a
  attempt-Keeps (throw x) k kk = λ p r. (refl, refl)
  attempt-Keeps stuck k kk = λ p r. (refl, refl)

  pub ask-Keeps {ℓ} :
      {A : Type ℓ} (operation : ℕ → A) (k : A → Run K E)
      → ((a : A) → Keeps (k a))
      → Keeps (ask operation k)
  unfolding ask
  ask-Keeps operation k kk p = kk (operation p.clock) (tick p)

  pub load-Keeps :
      (address : ℕ) (k : Keys K → Run K E)
      → ((object : Keys K) → Keeps (k object))
      → Keeps (load address k)
  unfolding load
  load-Keeps address k kk p = kk (p.objects address) p

  pub if-Keeps : (b : Bool) (m n : Run K E) → Keeps m → Keeps n → Keeps (if b then m else n)
  if-Keeps true m n hm hn = hm
  if-Keeps false m n hm hn = hn

  -- An object that is changed where it stands.
  pub update-Keeps :
      (address : ℕ) (f : Keys K → Keys K) (k : Run K E)
      → ((object : Keys K)
          → ((f object).aes_key ≡ object.aes_key) × ((f object).hmac_key ≡ object.hmac_key))
      → Keeps k
      → Keeps (load address λ object. save address (f object) k)
  unfolding load save
  update-Keeps address f k raw kk p =
      let q = stored address (f (p.objects address)) p in Kept-then p q (k q).page changed (kk q)
    where
      changed : Kept p (stored address (f (p.objects address)) p)
      changed r = elim (Bool-cases (address == r)) [
        | inl same ↦
            let place : address ≡ r = (==_iff address r).0 same in
            rw same (
              subst
                (λ (n : ℕ).
                  ((f (p.objects address)).aes_key ≡ (p.objects n).aes_key)
                  × ((f (p.objects address)).hmac_key ≡ (p.objects n).hmac_key))
                place (raw (p.objects address)))
        | inr other ↦ rw other (refl, refl)
      ]
