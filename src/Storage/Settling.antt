-- ===== src/Storage/Settling.antt =====
-- Each operation of the key storage calls exactly one of its callbacks, exactly once, whatever
-- IndexedDB does.
use crypto_security_projects.Base.{
  List, [], ◌∷◌, ◌++◌, String, Option, none, some, inl, inr, ◌≡◌, ◌⊎◌, ◌∙◌, refl, ap,
}
use crypto_security_projects.Js.{Exn}
use crypto_security_projects.Runtime.{
  Arg, Report, event, unhandled, stalled, label, exn, Settled, resolve, reject, refuse,
}
use crypto_security_projects.IndexedDb.{IndexedDb, Mode, readonly, readwrite}
use crypto_security_projects.Storage.{
  Site, Result, Task, Issued, detach, dispatch, show, failed_request, within, handlers, unheard,
  after_func, opened, request, stray_get, open_db, put, get, delete,
}

-- The calls of callbacks among the reports.
abbrev pub events : {E : Type 0} → List (Report E) → List E
events [] = []
events (event e ∷ rs) = e ∷ events rs
events (unhandled x ∷ rs) = events rs
events (stalled ∷ rs) = events rs

events-append :
    {E : Type 0} (rs rs' : List (Report E)) → events (rs ++ rs') ≡ events rs ++ events rs'
events-append [] rs' = refl
events-append (event e ∷ rs) rs' = ap (λ es. e ∷ es) (events-append rs rs')
events-append (unhandled x ∷ rs) rs' = events-append rs rs'
events-append (stalled ∷ rs) rs' = events-append rs rs'

append_none : {E : Type 0} (es : List E) → es ++ [] ≡ es
append_none [] = refl
append_none (e ∷ es) = ap (λ xs. e ∷ xs) (append_none es)

events_unhandled :
    {E : Type 0} (rs : List (Report E)) (x : Exn) → events (rs ++ (unhandled x ∷ [])) ≡ events rs
events_unhandled rs x = events-append rs (unhandled x ∷ []) ∙ append_none (events rs)

module _ {S E : Type 0} where
  -- A callback that shows one event, and does not throw.
  abbrev pub Answers : Task S E → Type 0
  Answers m =
      (w : Site S E)
      → (e : E) × ((m w).site.reports ≡ w.reports ++ (event e ∷ [])) × ((m w).thrown ≡ none)

  -- One event more, and nothing thrown.
  abbrev pub Called : Site S E → Result S E → Type 0
  Called w o = (e : E) × (events o.site.reports ≡ events w.reports ++ (e ∷ [])) × (o.thrown ≡ none)

  -- No event, but an exception that was thrown or reported.
  abbrev pub Failed : Site S E → Result S E → Type 0
  Failed w o =
      (x : Exn) × ((o.thrown ≡ some x) × (o.site.reports ≡ w.reports)
        ⊎ (o.thrown ≡ none) × (o.site.reports ≡ w.reports ++ (unhandled x ∷ [])))

  abbrev pub Settles : Task S E → Type 0
  Settles m = (w : Site S E) → Called w (m w) ⊎ Failed w (m w)

module _ {V : Type 0} (db : IndexedDb V) {E : Type 0} where
  open db use {State, Connection, Transaction}

  detach-Answers :
      (m : Task State E) (w : Site State E)
      → Answers m
      → (e : E) × ((detach db m w).reports ≡ w.reports ++ (event e ∷ []))
  unfolding detach
  detach-Answers m w a = let (e, shown, quiet) = a w in (e, rw (detach, quiet) shown)

  dispatch-Answers :
      (t : Transaction) (m : Task State E) (w : Site State E)
      → Answers m
      → (e : E) × ((dispatch db t m w).reports ≡ w.reports ++ (event e ∷ []))
  unfolding dispatch
  dispatch-Answers t m w a = let (e, shown, quiet) = a w in (e, rw (dispatch, quiet) shown)

  -- What holds of both outcomes of a transaction holds after it.
  within_lem {κ} :
      {A : Type 0} (P : A → Type κ) (failed : Exn → Site State E → A)
      (k : Transaction → Site State E → Settled (Option V) → A)
      (ask : Transaction → State → Settled (Option V) × State) (w : Site State E)
      → ((x : Exn) (s : State) → P (failed x (record w { db = s })))
      → ((t : Transaction) (s : State) (settled : Settled (Option V))
          → P (k t (record w { db = s }) settled))
      → (begun : Exn ⊎ Transaction) (s : State) → P (within db failed k ask w begun s)
  within_lem P failed k ask w hf hk (inl x) s = hf x s
  within_lem P failed k ask w hf hk (inr t) s = hk t _ (ask t s).0

  events-unheard :
      (t : Transaction) (w : Site State E) (settled : Settled (Option V))
      → events (unheard db t w settled).reports ≡ events w.reports
  events-unheard t w (refuse x) = events_unhandled w.reports x
  events-unheard t w (resolve result) = refl
  events-unheard t w (reject x) = refl

  events-stray_get :
      (c : Connection) (w : Site State E) → events (stray_get db c w).reports ≡ events w.reports
  unfolding stray_get
  events-stray_get c w =
      let (begun, s) = db.transaction c "keys" readwrite w.db in
      within_lem (λ (v : Site State E). events v.reports ≡ events w.reports)
        (λ x. show db (unhandled x)) (unheard db) (λ t. db.get t "keys" "RSA") w
        (λ x s. events_unhandled w.reports x) (λ t s. events-unheard t (record w { db = s })) begun
        s

  -- Either the request has been made, and the browser will call one of the two callbacks, or the
  -- code has thrown. Nothing is shown meanwhile.
  abbrev Pending : Site State E → Issued State E → Type 0
  Pending w i =
      (i.site.reports ≡ w.reports)
      × ((i.thrown ≡ none)
            × ((v : Site State E) → (e : E) × ((i.later v).reports ≡ v.reports ++ (event e ∷ [])))
          ⊎ (x : Exn) × (i.thrown ≡ some x))

  module _ (on_error : List Arg → Task State E)
      (ea : (args : List Arg) → Answers (on_error args)) where
    handlers-Pending :
        (on_success : Option V → Task State E) (c : Connection) (t : Transaction) (w : Site State E)
        (settled : Settled (Option V))
        → ((result : Option V) → Answers (on_success result))
        → Pending w (handlers db on_error on_success c t w settled)
    handlers-Pending on_success c t w (refuse x) ka = (refl, inr (x, refl))
    handlers-Pending on_success c t w (resolve result) ka =
        (refl, inl (refl, λ v. dispatch-Answers t _ v (λ u. ka result _)))
    handlers-Pending on_success c t w (reject x) ka =
        (refl, inl (refl, λ v. dispatch-Answers t _ v (λ u. ea _ _)))

    request-Pending :
        (mode : Mode) (ask : Transaction → State → Settled (Option V) × State)
        (on_success : Option V → Task State E) (c : Connection) (w : Site State E)
        → ((result : Option V) → Answers (on_success result))
        → Pending w (request db mode ask on_error on_success c w)
    unfolding request
    request-Pending mode ask on_success c w ka =
        let (begun, s) = db.transaction c "keys" mode w.db in
        within_lem (Pending w) (failed_request db) (handlers db on_error on_success c) ask w
          (λ x s. (refl, inr (x, refl)))
          (λ t s settled. handlers-Pending on_success c t (record w { db = s }) settled ka) begun s

    after_func-Settles :
        (c : Connection) (w : Site State E) (i : Issued State E)
        → Pending w i
        → Called w (record { site = after_func db c i i.thrown; thrown = none })
          ⊎ Failed w (record { site = after_func db c i i.thrown; thrown = none })
    after_func-Settles c w i (same, inl (quiet, calls)) =
        let (e, shown) = calls (stray_get db c i.site) in
        rw quiet (
          inl (
            e,
            ap events shown
                ∙ events-append (stray_get db c i.site).reports (event e ∷ [])
                ∙ ap (λ (es : List E). es ++ (e ∷ [])) (events-stray_get c i.site ∙ ap events same),
            refl,
          ))
    after_func-Settles c w i (same, inr (x, loud)) =
        rw loud (inr (x, inr (refl, ap (λ (rs : List (Report E)). rs ++ (unhandled x ∷ [])) same)))

    opened-Settles :
        (func : Connection → Site State E → Issued State E) (w : Site State E)
        (settled : Settled Connection)
        → ((c : Connection) → Pending w (func c w))
        → Called w (opened db on_error func w settled)
          ⊎ Failed w (opened db on_error func w settled)
    opened-Settles func w (refuse x) pending = inr (x, inl (refl, refl))
    opened-Settles func w (reject x) pending =
        let (e, shown) =
          detach-Answers (on_error (label "Error opening DB" ∷ exn x ∷ [])) w (ea _) in
        inl (e, ap events shown ∙ events-append w.reports (event e ∷ []), refl)
    opened-Settles func w (resolve c) pending = after_func-Settles c w (func c w) (pending c)

    open_db-Settles :
        (func : Connection → Site State E → Issued State E)
        → ((c : Connection) (w : Site State E) → Pending w (func c w))
        → Settles (open_db db on_error func)
    unfolding open_db
    open_db-Settles func pending w =
        let (settled, s) =
          db.open_database "simplecrypto" 1 (λ c s. db.create_object_store c "keys" s) w.db in
        opened-Settles func (record w { db = s }) settled (λ c. pending c (record w { db = s }))

  -- Whatever IndexedDB does with `put`, `get` and `delete`, each of them calls exactly one of its
  -- callbacks, exactly once, or calls none and throws or has an exception reported. The callbacks
  -- here are any that show one event and do not throw. The request for "RSA" that nothing waits for
  -- calls none.
  pub storage-Settles :
      (key : String) (value : V) (on_error : List Arg → Task State E)
      (on_success : Option V → Task State E)
      → ((args : List Arg) → Answers (on_error args))
      → ((result : Option V) → Answers (on_success result))
      → Settles (put db key value on_error on_success)
        × Settles (get db key on_error on_success)
        × Settles (delete db key on_error on_success)
  unfolding put get delete
  storage-Settles key value on_error on_success ea ka = (
    open_db-Settles on_error ea _
        (λ c w. request-Pending on_error ea readwrite _ _ c w (λ result. ka none)),
    open_db-Settles on_error ea _ (λ c w. request-Pending on_error ea readonly _ _ c w ka),
    open_db-Settles on_error ea _ (λ c w. request-Pending on_error ea readwrite _ _ c w ka),
  )
