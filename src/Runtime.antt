-- ===== src/Runtime.antt =====
-- How simplecrypto.js runs: every function takes `onError` and `onSuccess` and hands its result to
-- one of them, through `wrap`, when the browser settles an operation of WebCrypto.
--
-- A run goes from one state of the page to the next. A callback that the event loop calls cannot
-- throw to the code that passed it, which has returned long before: an exception that nothing
-- catches is reported.
pub mod Delivery
pub mod Settling
pub mod Keeping
use crypto_security_projects.Base.{
  ℕ, suc, ◌+◌, List, [], ◌∷◌, ◌++◌, String, Option, none, some, Bool, true, false, ◌==◌,
  if◌then◌else◌,
}
use crypto_security_projects.Js.{Attempt, ok, throw, stuck, Exn, Source}

-- An argument of `onError`.
pub data Arg : Type 0 where
  label : String → Arg
  exn : Exn → Arg
  number : ℕ → Arg
  -- `e.message`
  message : Exn → Arg

-- `onError.bind(null, text)`
abbrev pub bind {ℓ} : {R : Type ℓ} → (List Arg → R) → String → List Arg → R
bind on_error text args = on_error (label text ∷ args)

-- What becomes of an operation of the browser: its promise is resolved or rejected, or the call
-- throws and makes no promise.
pub data Settled {ℓ} (A : Type ℓ) : Type ℓ where
  resolve : A → Settled A
  reject : Exn → Settled A
  refuse : Exn → Settled A

-- The object `{aesKey, hmacKey, aesKeyObj, hmacKeyObj, iv}`: `none` where it has no such property.
pub record Keys (K : Type 0) : Type 0 where
  pub aes_key : Option Source
  pub hmac_key : Option Source
  pub aes_key_obj : Option K
  pub hmac_key_obj : Option K
  pub iv : Option Source

-- What a run has shown to its caller.
pub data Report (E : Type 0) : Type 0 where
  event : E → Report E
  unhandled : Exn → Report E
  -- A loop does not end: the fuel of the model has run out.
  stalled : Report E

-- The state of the page: the key objects that were made, by their addresses, the next address, the
-- number of operations asked of the browser, and the reports so far.
pub record Page (K E : Type 0) : Type 0 where
  pub objects : ℕ → Keys K
  pub next : ℕ
  pub clock : ℕ
  pub reports : List (Report E)

pub record Outcome (K E : Type 0) : Type 0 where
  pub page : Page K E
  pub thrown : Option Exn

abbrev pub Run : Type 0 → Type 0 → Type 0
Run K E = Page K E → Outcome K E

-- An `onError` callback.
abbrev pub Failure : Type 0 → Type 0 → Type 0
Failure K E = List Arg → Run K E

module _ {K E : Type 0} where
  abbrev pub finish : Run K E
  finish p = record { page = p; thrown = none }

  abbrev pub raise : Exn → Run K E
  raise x p = record { page = p; thrown = some x }

  abbrev pub report : Report E → Run K E
  report r p = record { page = record p { reports = p.reports ++ (r ∷ []) }; thrown = none }

  -- A callback of the caller that shows what it is given.
  abbrev pub emit : E → Run K E
  emit e = report (event e)

  -- `try { m } catch (x) { h(x) }`
  unfoldable pub catching : Run K E → (Exn → Run K E) → Run K E
  catching m h p = elim (m p).thrown [ none ↦ m p | some x ↦ h x (m p).page ]

  -- A call by the event loop.
  unfoldable pub detached : Run K E → Run K E
  detached m p = elim (m p).thrown [ none ↦ m p | some x ↦ report (unhandled x) (m p).page ]

  -- `wrap`. With promises an exception of `onSuccess` goes to `onError` too; the operations of old
  -- Internet Explorer, which have no `then`, report it. A refused call throws before `wrap`.
  unfoldable pub wrap {ℓ} :
      {A : Type ℓ} → Bool → Settled A → (List Arg → Run K E) → (A → Run K E) → Run K E
  unfolding catching detached
  wrap has_then (refuse x) on_error on_success = raise x
  wrap has_then (reject x) on_error on_success = detached (on_error (exn x ∷ []))
  wrap true (resolve a) on_error on_success =
      detached (catching (on_success a) (λ x. on_error (exn x ∷ [])))
  wrap false (resolve a) on_error on_success = detached (on_success a)

  -- Code that may throw, in the middle of a run.
  unfoldable pub attempt {ℓ} : {A : Type ℓ} → Attempt A → (A → Run K E) → Run K E
  attempt (ok a) k = k a
  attempt (throw x) k = raise x
  attempt stuck k = report stalled

  abbrev pub tick : Page K E → Page K E
  tick p = record p { clock = suc p.clock }

  -- An operation of the browser. Its result may depend on when it is asked for.
  unfoldable pub ask {ℓ} : {A : Type ℓ} → (ℕ → A) → (A → Run K E) → Run K E
  ask operation k p = k (operation p.clock) (tick p)

  -- A page whose object at the address is replaced.
  abbrev pub stored : ℕ → Keys K → Page K E → Page K E
  stored address object p = record p {
    objects = (λ r. if address == r then object else p.objects r);
  }

  -- `{ … }`: a new object, at an address of its own.
  unfoldable pub allocate : Keys K → (ℕ → Run K E) → Run K E
  allocate object k p = k p.next (record (stored p.next object p) { next = suc p.next })

  unfoldable pub load : ℕ → (Keys K → Run K E) → Run K E
  load address k p = k (p.objects address) p

  unfoldable pub save : ℕ → Keys K → Run K E → Run K E
  save address object k p = k (stored address object p)
