-- ===== src/IndexedDb.antt =====
-- IndexedDB of the browser, a parameter of the model: what `_indexedDB` in simplecrypto.js offers.
-- Each operation takes the state of the browser's databases and gives the next one.
pub mod Laws
use crypto_security_projects.Base.{ℕ, String, Option, ◌⊎◌}
use crypto_security_projects.Js.{Exn}
use crypto_security_projects.Runtime.{Settled}

pub data Mode : Type 0 where
  readonly readwrite : Mode

-- A request is `resolve` where its `onsuccess` is called, `reject` where its `onerror` is, and
-- `refuse` where the call throws. `V` holds the values.
pub record IndexedDb (V : Type 0) : Type 1 where
  pub State : Type 0
  pub Connection : Type 0
  pub Transaction : Type 0
  -- `open` calls `onupgradeneeded` if the database is older than the version.
  pub open_database : String → ℕ → (Connection → State → State) → State → Settled Connection × State
  pub create_object_store : Connection → String → State → State
  pub close : Connection → State → State
  -- `transaction([name], mode)`, which may throw.
  pub transaction : Connection → String → Mode → State → (Exn ⊎ Transaction) × State
  -- `objectStore(name).put(value, key)`, and `get` and `delete` of a key.
  pub put : Transaction → String → V → String → State → Settled (Option V) × State
  pub get : Transaction → String → String → State → Settled (Option V) × State
  pub delete : Transaction → String → String → State → Settled (Option V) × State
  -- What an exception of an event handler does to the transaction.
  pub abort : Transaction → State → State
