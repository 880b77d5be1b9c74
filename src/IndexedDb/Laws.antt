-- ===== src/IndexedDb/Laws.antt =====
-- What the code relies on of IndexedDB, where a theorem assumes it: the documented behaviour of an
-- object store, when the storage can be opened and no request fails.
use crypto_security_projects.Base.{
  ℕ, suc, ◌≡◌, String, Option, none, some, inr, if◌then◌else◌, str_eq,
}
use crypto_security_projects.Runtime.{resolve}
use crypto_security_projects.IndexedDb.{IndexedDb, Mode, readwrite}

-- The contents of the store `keys` of the database `simplecrypto`, and the connections that are
-- open to it.
pub record View (V : Type 0) : Type 0 where
  pub contents : String → Option V
  pub connections : ℕ

abbrev pub updated {ℓ} : {V : Type ℓ} → String → Option V → (String → Option V) → String → Option V
updated key value contents other = if str_eq key other then value else contents other

abbrev pub upgrade : {V : Type 0} (db : IndexedDb V) → db.Connection → db.State → db.State
upgrade db connection s = db.create_object_store connection "keys" s

-- `IsReady s`: the storage can be used. `IsOpen c s`: `c` is a connection to it that is open.
-- `IsLive t s`: `t` is a transaction that has not ended.
pub record Working {V : Type 0} (db : IndexedDb V) : Type 1 where
  pub IsReady : db.State → Type 0
  pub IsOpen : db.Connection → db.State → Type 0
  pub IsLive : db.Transaction → Mode → db.State → Type 0
  pub view : db.State → View V
  pub opens :
      (s : db.State)
      → IsReady s
      → (c : db.Connection) × (s' : db.State) × (db.open_database "simplecrypto" 1 (upgrade db) s
          ≡ (resolve c, s'))
        × IsReady s'
        × IsOpen c s'
        × ((view s').contents ≡ (view s).contents)
        × ((view s').connections ≡ suc (view s).connections)
  pub begins :
      (c : db.Connection) (mode : Mode) (s : db.State)
      → IsReady s
      → IsOpen c s
      → (t : db.Transaction) × (s' : db.State) × (db.transaction c "keys" mode s ≡ (inr t, s'))
        × IsReady s'
        × IsOpen c s'
        × IsLive t mode s'
        × (view s' ≡ view s)
  -- A value is put only in a transaction that may write.
  pub puts :
      (c : db.Connection) (t : db.Transaction) (value : V) (key : String) (s : db.State)
      → IsReady s
      → IsOpen c s
      → IsLive t readwrite s
      → (result : Option V) × (s' : db.State) × (db.put t "keys" value key s ≡ (resolve result, s'))
        × IsReady s'
        × IsOpen c s'
        × ((view s').contents ≡ updated key (some value) (view s).contents)
        × ((view s').connections ≡ (view s).connections)
  pub gets :
      (c : db.Connection) (t : db.Transaction) (mode : Mode) (key : String) (s : db.State)
      → IsReady s
      → IsOpen c s
      → IsLive t mode s
      → (s' : db.State) × (db.get t "keys" key s ≡ (resolve ((view s).contents key), s'))
        × IsReady s'
        × IsOpen c s'
        × (view s' ≡ view s)
  -- The result of `delete` is undefined.
  pub deletes :
      (c : db.Connection) (t : db.Transaction) (key : String) (s : db.State)
      → IsReady s
      → IsOpen c s
      → IsLive t readwrite s
      → (s' : db.State) × (db.delete t "keys" key s ≡ (resolve none, s'))
        × IsReady s'
        × IsOpen c s'
        × ((view s').contents ≡ updated key none (view s).contents)
        × ((view s').connections ≡ (view s).connections)
  pub closes :
      (c : db.Connection) (s : db.State)
      → IsReady s
      → IsOpen c s
      → IsReady (db.close c s)
        × ((view (db.close c s)).contents ≡ (view s).contents)
        × (suc (view (db.close c s)).connections ≡ (view s).connections)
