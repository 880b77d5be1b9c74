-- ===== src/Runtime/Delivery.antt =====
-- When a function with callbacks hands a value to `onSuccess`, and rules to follow such values
-- through a chain of callbacks.
use crypto_security_projects.Base.{ℕ, Bool, true, false, ◌≡◌, ◌∙◌, ap, arith, none, List, [], ◌∷◌}
use crypto_security_projects.Js.{Exn}
use crypto_security_projects.Runtime.{
  Arg, Keys, Page, Run, Failure, load, ask, stored, tick, wrap, catching, detached, resolve, exn,
}

-- A function of `onError` and `onSuccess`.
abbrev pub Task {ℓ} : Type 0 → Type 0 → Type ℓ → Type ℓ
Task K E A = Failure K E → (A → Run K E) → Run K E

module _ {K E : Type 0} where
  -- Started on the page `p`, the task calls `onSuccess` with `a` on the page `q`, as its last act,
  -- and no other callback. This holds of every `onSuccess` that does not throw there.
  abbrev pub Delivers {ℓ} : {A : Type ℓ} → Task K E A → Page K E → A → Page K E → Type ℓ
  Delivers {A} task p a q =
      (on_error : Failure K E) (on_success : A → Run K E)
      → (on_success a q).thrown ≡ none
      → task on_error on_success p ≡ on_success a q

  -- The same for `onError`: no `onSuccess` is called.
  abbrev pub Rejects {ℓ} : {A : Type ℓ} → Task K E A → Page K E → List Arg → Page K E → Type ℓ
  Rejects {A} task p args q =
      (on_error : Failure K E) (on_success : A → Run K E)
      → (on_error args q).thrown ≡ none
      → task on_error on_success p ≡ on_error args q

  module _ {ℓ κ} {A : Type ℓ} {B : Type κ} where
    -- One task after the other; the first may add to the arguments of `onError`.
    pub Delivers-then :
        (first : Task K E A) (second : A → Task K E B) (adjust adjust' : Failure K E → Failure K E)
        {p q r : Page K E} {a : A} {b : B}
        → Delivers first p a q
        → Delivers (second a) q b r
        → Delivers (λ e k. first (adjust e) (λ x. second x (adjust' e) k)) p b r
    Delivers-then first second adjust adjust' {q = q} {a = a} f g e k quiet =
        let last = g (adjust' e) k quiet in
        f (adjust e) (λ x. second x (adjust' e) k) (ap (λ o. o.thrown) last ∙ quiet) ∙ last

  module _ {ℓ} {A : Type ℓ} where
    pub Delivers-load :
        (address : ℕ) (object : Keys K) (task : Keys K → Task K E A) {p q : Page K E} {a : A}
        → p.objects address ≡ object
        → Delivers (task object) p a q
        → Delivers (λ e k. load address (λ o. task o e k)) p a q
    unfolding load
    Delivers-load address object task found d e k quiet = rw found (d e k quiet)

    pub Delivers-ask :
        {ask_for : Type ℓ} (operation : ℕ → ask_for) (task : ask_for → Task K E A) {p q : Page K E}
        {a : A}
        → Delivers (task (operation p.clock)) (tick p) a q
        → Delivers (λ e k. ask operation (λ x. task x e k)) p a q
    unfolding ask
    Delivers-ask operation task d = d

  pub objects-stored :
      (address : ℕ) (object : Keys K) (p : Page K E)
      → (stored address object p).objects address ≡ object
  objects-stored address object p = ground arith

  pub catching_quiet :
      (m : Run K E) (h : Exn → Run K E) (p : Page K E) → (m p).thrown ≡ none → catching m h p ≡ m p
  unfolding catching
  catching_quiet m h p quiet = ground arith

  pub detached_quiet : (m : Run K E) (p : Page K E) → (m p).thrown ≡ none → detached m p ≡ m p
  unfolding detached
  detached_quiet m p quiet = ground arith

  module _ {ℓ} {A : Type ℓ} where
    -- A resolved operation calls `onSuccess`, with promises and without.
    pub wrap_resolved :
        (has_then : Bool) (a : A) (e : Failure K E) (k : A → Run K E) (q : Page K E)
        → (k a q).thrown ≡ none
        → wrap has_then (resolve a) e k q ≡ k a q
    unfolding wrap
    wrap_resolved true a e k q quiet =
        let caught = catching_quiet (k a) (λ x. e (exn x ∷ [])) q quiet in
        detached_quiet (catching (k a) (λ x. e (exn x ∷ []))) q (ap (λ o. o.thrown) caught ∙ quiet)
        ∙ caught
    wrap_resolved false a e k q quiet = detached_quiet (k a) q quiet
