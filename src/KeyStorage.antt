-- ===== src/KeyStorage.antt =====
-- `simpleCrypto.storage` of simplecrypto.js: the interface of the key storage, over `dbUtil`.
pub mod Map
use crypto_security_projects.Base.{List, String, Option}
use crypto_security_projects.Runtime.{Arg}
use crypto_security_projects.IndexedDb.{IndexedDb}
use crypto_security_projects.Storage.{Task}
use crypto_security_projects.Storage as DbUtil

module _ {V : Type 0} (db : IndexedDb V) {E : Type 0} where
  open db use {State}

  unfoldable pub get : String → (List Arg → Task State E) → (Option V → Task State E) → Task State E
  get key_id on_error on_success = DbUtil.get db key_id on_error on_success

  unfoldable pub put :
      String → V → (List Arg → Task State E) → (Option V → Task State E) → Task State E
  put key_id key on_error on_success = DbUtil.put db key_id key on_error on_success

  unfoldable pub delete :
      String → (List Arg → Task State E) → (Option V → Task State E) → Task State E
  delete key_id on_error on_success = DbUtil.delete db key_id on_error on_success
