-- ===== src/Runtime/Settling.antt =====
-- Functions that call exactly one of their callbacks, once.
--
-- It is said of every pair of callbacks: if each call of a callback shows one event, then the whole
-- run shows one event. A run that called none would show none, and one that called two would show
-- two.
use crypto_security_projects.Base.{
  Option, Bool, true, false, if◌then◌else◌, ℕ, true, List, [], ◌∷◌, ◌++◌, none, some, ◌≡◌, ◌≢◌, ◌⊎◌,
  inl, inr, refl, arith, ◌∙◌, ap,
}
use crypto_security_projects.Js.{Exn, Attempt, ok, throw, stuck}
use crypto_security_projects.Runtime.Delivery.{catching_quiet, detached_quiet}
use crypto_security_projects.Runtime.{
  raise, Arg, exn, Keys, Report, event, Page, Outcome, Run, Failure, Settled, resolve, reject,
  refuse, wrap, catching, detached, attempt, ask, load, save, allocate, stored, tick, emit,
}

module _ {K E : Type 0} where
  -- The run has shown one more event, and threw nothing.
  abbrev pub Answered : Page K E → Outcome K E → Type 0
  Answered p o = (e : E) × (o.page.reports ≡ p.reports ++ (event e ∷ [])) × (o.thrown ≡ none)

  -- The run has thrown before it showed anything.
  abbrev pub Raised : Page K E → Outcome K E → Type 0
  Raised p o = (x : Exn) × (o.page.reports ≡ p.reports) × (o.thrown ≡ some x)

  abbrev pub Answers : Run K E → Type 0
  Answers m = (p : Page K E) → Answered p (m p)

  abbrev pub Settles : Run K E → Type 0
  Settles m = (p : Page K E) → Answered p (m p) ⊎ Raised p (m p)

  pub emit-Answers : (e : E) → Answers (emit e)
  emit-Answers e p = (e, refl, refl)

  pub Answers-Settles : (m : Run K E) → Answers m → Settles m
  Answers-Settles m a p = inl (a p)

  catching_raised :
      (m : Run K E) (h : Exn → Run K E) (p : Page K E) {x : Exn}
      → (m p).thrown ≡ some x
      → catching m h p ≡ h x (m p).page
  unfolding catching
  catching_raised m h p loud = ground arith

  pub catching-Answers :
      (m : Run K E) (h : Exn → Run K E)
      → Settles m
      → ((x : Exn) → Answers (h x))
      → Answers (catching m h)
  catching-Answers m h s a p = elim (s p) [
    | inl (e, shown, quiet) ↦ rw (catching_quiet m h p quiet) (e, shown, quiet)
    | inr (x, same, loud) ↦
        let (e, shown, quiet) = a x (m p).page in
        rw (catching_raised m h p loud)
          (e, shown ∙ ap (λ (rs : List (Report E)). rs ++ (event e ∷ [])) same, quiet)
  ]

  detached-Answers : (m : Run K E) → Answers m → Answers (detached m)
  detached-Answers m a p =
      let (e, shown, quiet) = a p in rw (detached_quiet m p quiet) (e, shown, quiet)

  -- With promises `wrap` settles if its callbacks do, `on_success` on the result at least; only a
  -- refused call throws.
  pub wrap_resolved-Settles {ℓ} :
      {A : Type ℓ} (r : Settled A) (e : Failure K E) (k : A → Run K E)
      → ((args : List Arg) → Answers (e args))
      → ((a : A) → r ≡ resolve a → Settles (k a))
      → Settles (wrap true r e k)
  unfolding wrap
  wrap_resolved-Settles (refuse x) e k ea ks p = inr (x, refl, refl)
  wrap_resolved-Settles (reject x) e k ea ks p = inl (detached-Answers (e (exn x ∷ [])) (ea _) p)
  wrap_resolved-Settles (resolve a) e k ea ks p = inl (
      detached-Answers (catching (k a) (λ x. e (exn x ∷ [])))
        (catching-Answers (k a) (λ x. e (exn x ∷ [])) (ks a refl) (λ x. ea _)) p)

  pub attempt-Settles {ℓ} :
      {A : Type ℓ} (m : Attempt A) (k : A → Run K E)
      → m ≢ stuck
      → ((a : A) → Settles (k a))
      → Settles (attempt m k)
  unfolding attempt
  attempt-Settles (ok a) k h ks p = ks a p
  attempt-Settles (throw x) k h ks p = inr (x, refl, refl)
  attempt-Settles stuck k h ks p = absurd (h refl)

  pub attempt_ok-Settles {ℓ} :
      {A : Type ℓ} {m : Attempt A} {a : A} (k : A → Run K E)
      → m ≡ ok a
      → Settles (k a)
      → Settles (attempt m k)
  unfolding attempt
  attempt_ok-Settles k gives ks p = rw gives (ks p)

  pub ask-Settles {ℓ} :
      {A : Type ℓ} (operation : ℕ → A) (k : A → Run K E)
      → ((a : A) → Settles (k a))
      → Settles (ask operation k)
  unfolding ask
  ask-Settles operation k ks p = ks (operation p.clock) (tick p)

  pub load-Settles :
      (address : ℕ) (k : Keys K → Run K E)
      → ((object : Keys K) → Settles (k object))
      → Settles (load address k)
  unfolding load
  load-Settles address k ks p = ks (p.objects address) p

  pub save-Settles :
      (address : ℕ) (object : Keys K) (k : Run K E) → Settles k → Settles (save address object k)
  unfolding save
  save-Settles address object k ks p = ks (stored address object p)

  pub allocate-Settles :
      (object : Keys K) (k : ℕ → Run K E)
      → ((address : ℕ) → Settles (k address))
      → Settles (allocate object k)
  unfolding allocate
  allocate-Settles object k ks p = ks p.next _

  pub raise-Settles : (x : Exn) → Settles (raise x)
  raise-Settles x p = inr (x, refl, refl)

  pub if-Settles : (b : Bool) (m n : Run K E) → Settles m → Settles n → Settles (if b then m else n)
  if-Settles true m n hm hn = hm
  if-Settles false m n hm hn = hn

  -- Each branch may use the outcome of the test.
  pub if_known-Settles :
      (b : Bool) (m n : Run K E)
      → (b ≡ true → Settles m)
      → (b ≡ false → Settles n)
      → Settles (if b then m else n)
  if_known-Settles true m n hm hn = hm refl
  if_known-Settles false m n hm hn = hn refl

  pub Option-Settles {ℓ} :
      {A : Type ℓ} (o : Option A) (m : Run K E) (n : A → Run K E)
      → Settles m
      → ((a : A) → Settles (n a))
      → Settles (elim o [ none ↦ m | some a ↦ n a ])
  Option-Settles none m n hm hn = hm
  Option-Settles (some a) m n hm hn = hn a
