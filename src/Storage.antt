-- ===== src/Storage.antt =====
-- `dbUtil` of simplecrypto.js: keys kept in IndexedDB.
--
-- A request changes the database in the order in which it is made, and the browser calls its
-- handlers later, after the code that made it has returned.
pub mod Settling
pub mod Working
use crypto_security_projects.Base.{List, [], ◌∷◌, ◌++◌, String, Option, none, some, inl, inr, ◌⊎◌}
use crypto_security_projects.Js.{Exn}
use crypto_security_projects.Runtime.{
  Arg, label, exn, Report, unhandled, Settled, resolve, reject, refuse,
}
use crypto_security_projects.IndexedDb.{IndexedDb, Mode, readonly, readwrite}

-- The databases of the browser, and what was shown to the caller.
pub record Site (S E : Type 0) : Type 0 where
  pub db : S
  pub reports : List (Report E)

pub record Result (S E : Type 0) : Type 0 where
  pub site : Site S E
  pub thrown : Option Exn

abbrev pub Task : Type 0 → Type 0 → Type 0
Task S E = Site S E → Result S E

-- Code in a handler of `open` that has made its request, or has thrown. `later` is what the browser
-- does when the request is settled.
pub record Issued (S E : Type 0) : Type 0 where
  pub site : Site S E
  pub thrown : Option Exn
  pub later : Site S E → Site S E

module _ {V : Type 0} (db : IndexedDb V) {E : Type 0} where
  open db use {State, Connection, Transaction}

  abbrev pub show : Report E → Site State E → Site State E
  show r w = record w { reports = w.reports ++ (r ∷ []) }

  abbrev pub at : State → Site State E → Site State E
  at s w = record w { db = s }

  -- A handler that the browser calls: its exception is reported.
  unfoldable pub detach : Task State E → Site State E → Site State E
  detach m w = elim (m w).thrown [ none ↦ (m w).site | some x ↦ show (unhandled x) (m w).site ]

  -- A handler of a request: its exception aborts the transaction too.
  unfoldable pub dispatch : Transaction → Task State E → Site State E → Site State E
  dispatch t m w = elim (m w).thrown [
    | none ↦ (m w).site
    | some x ↦ let o = show (unhandled x) (m w).site in at (db.abort t o.db) o
  ]

  abbrev pub close_db : Connection → Task State E → Task State E
  close_db c k w = k (at (db.close c w.db) w)

  -- `db.transaction(["keys"], mode).objectStore("keys")` has thrown, or begun a transaction, in
  -- which a request is made.
  abbrev pub within :
      {A : Type 0}
      → (Exn → Site State E → A)
      → (Transaction → Site State E → Settled (Option V) → A)
      → (Transaction → State → Settled (Option V) × State)
      → Site State E
      → Exn ⊎ Transaction
      → State
      → A
  within failed k ask w (inl x) s = failed x (at s w)
  within failed k ask w (inr t) s = let (settled, s') = ask t s in k t (at s' w) settled

  abbrev pub failed_request : Exn → Site State E → Issued State E
  failed_request x w = record { site = w; thrown = some x; later = λ v. v }

  -- The two handlers of a request.
  abbrev pub handlers :
      (List Arg → Task State E)
      → (Option V → Task State E)
      → Connection
      → Transaction
      → Site State E
      → Settled (Option V)
      → Issued State E
  handlers on_error on_success c t w (refuse x) = failed_request x w
  handlers on_error on_success c t w (resolve result) = record {
    site = w;
    thrown = none;
    later = dispatch t (close_db c (on_success result));
  }
  handlers on_error on_success c t w (reject x) = record {
    site = w;
    thrown = none;
    later = dispatch t (close_db c (on_error (label "Error storing value" ∷ exn x ∷ [])));
  }

  unfoldable pub request :
      Mode
      → (Transaction → State → Settled (Option V) × State)
      → (List Arg → Task State E)
      → (Option V → Task State E)
      → Connection
      → Site State E
      → Issued State E
  request mode ask on_error on_success c w =
      let (begun, s) = db.transaction c "keys" mode w.db in
      within failed_request (handlers on_error on_success c) ask w begun s

  abbrev pub unheard : Transaction → Site State E → Settled (Option V) → Site State E
  unheard t w (refuse x) = show (unhandled x) w
  unheard t w (resolve result) = w
  unheard t w (reject x) = w

  -- `db.transaction(["keys"], "readwrite").objectStore("keys").get("RSA")`, which no handler waits
  -- for: it is code of the handler of `open`, and may throw.
  unfoldable pub stray_get : Connection → Site State E → Site State E
  stray_get c w =
      let (begun, s) = db.transaction c "keys" readwrite w.db in
      within (λ x. show (unhandled x)) unheard (λ t. db.get t "keys" "RSA") w begun s

  -- What the handler of a successful `open` does after `func`, and then the handler of the request.
  abbrev pub after_func : Connection → Issued State E → Option Exn → Site State E
  after_func c issued (some x) = show (unhandled x) issued.site
  after_func c issued none = issued.later (stray_get c issued.site)

  -- What becomes of the request to open the database.
  abbrev pub opened :
      (List Arg → Task State E)
      → (Connection → Site State E → Issued State E)
      → Site State E
      → Settled Connection
      → Result State E
  opened on_error func w (refuse x) = record { site = w; thrown = some x }
  opened on_error func w (reject x) = record {
    site = detach (on_error (label "Error opening DB" ∷ exn x ∷ [])) w;
    thrown = none;
  }
  opened on_error func w (resolve c) = record {
    site = after_func c (func c w) (func c w).thrown;
    thrown = none;
  }

  -- `_openDB`
  unfoldable pub open_db :
      (List Arg → Task State E) → (Connection → Site State E → Issued State E) → Task State E
  open_db on_error func w =
      let (settled, s) =
        db.open_database "simplecrypto" 1 (λ c s. db.create_object_store c "keys" s) w.db in
      opened on_error func (at s w) settled

  unfoldable pub put :
      String → V → (List Arg → Task State E) → (Option V → Task State E) → Task State E
  put key value on_error on_success =
      open_db on_error (
        request readwrite (λ t s. db.put t "keys" value key s) on_error (λ result. on_success none))

  unfoldable pub get : String → (List Arg → Task State E) → (Option V → Task State E) → Task State E
  get key on_error on_success =
      open_db on_error (request readonly (λ t s. db.get t "keys" key s) on_error on_success)

  unfoldable pub delete :
      String → (List Arg → Task State E) → (Option V → Task State E) → Task State E
  delete key on_error on_success =
      open_db on_error (request readwrite (λ t s. db.delete t "keys" key s) on_error on_success)
