-- ===== src/Tests/Storage.antt =====
-- The key storage on a small IndexedDB.
use crypto_security_projects.Base.{
  ℕ, suc, ◌-◌, ◌≤◌, ◌≡◌, refl, arith, List, [], ◌∷◌, ◌++◌, none, some, inr,
}
use crypto_security_projects.Runtime.{event, resolve}
use crypto_security_projects.IndexedDb.{IndexedDb}
use crypto_security_projects.IndexedDb.Laws.{Working, View, updated}
use crypto_security_projects.Storage.{Site, put, get, delete}
use crypto_security_projects.Storage.Settling.{Settles, storage-Settles}
use crypto_security_projects.KeyStorage.Map.{
  Operation, put_key, get_key, delete_key, Reply, failure, success, tell, perform_all, replies,
  contents_after_all, storage_refines_map,
}

-- The contents of the store, and a count of connections.
abbrev toy_db : IndexedDb ℕ
toy_db = record {
  State = View ℕ;
  Connection = Unit {0};
  Transaction = Unit {0};
  open_database =
      λ name version upgrade s. (resolve tt, record s { connections = suc s.connections });
  create_object_store = λ c name s. s;
  close = λ c s. record s { connections = s.connections - 1 };
  transaction = λ c name mode s. (inr tt, s);
  put = λ t name value key s.
      (resolve none, record s { contents = updated key (some value) s.contents });
  get = λ t name key s. (resolve (s.contents key), s);
  delete = λ t name key s. (resolve none, record s { contents = updated key none s.contents });
  abort = λ t s. s;
}

abbrev toy_working : Working toy_db
toy_working = record {
  IsReady = λ s. Unit {0};
  IsOpen = λ c s. 1 ≤ s.connections;
  IsLive = λ t mode s. Unit {0};
  view = λ s. s;
  opens = λ s ready.
      (tt, record s { connections = suc s.connections }, refl, tt, omega arith, refl, refl);
  begins = λ c mode s ready is_open. (tt, s, refl, tt, is_open, tt, refl);
  puts = λ c t value key s ready is_open live. (
    none,
    record s { contents = updated key (some value) s.contents },
    refl,
    tt,
    is_open,
    refl,
    refl,
  );
  gets = λ c t mode key s ready is_open live. (s, refl, tt, is_open, refl);
  deletes = λ c t key s ready is_open live.
      (record s { contents = updated key none s.contents }, refl, tt, is_open, refl, refl);
  closes = λ c s ready is_open. (tt, refl, omega arith);
}

abbrev empty : Site (View ℕ) (Reply ℕ)
empty = record { db = record { contents = λ name. none; connections = 0 }; reports = [] }

abbrev calls : List (Operation ℕ)
calls = put_key "RSA" 7 ∷ get_key "RSA" ∷ delete_key "RSA" ∷ get_key "RSA" ∷ []

storage_refines_map_example :
    ((perform_all toy_db calls empty).reports ≡ [] ++ replies calls (λ name. none))
    × ((perform_all toy_db calls empty).db.contents ≡ contents_after_all calls (λ name. none))
    × ((perform_all toy_db calls empty).db.connections ≡ 0)
storage_refines_map_example = storage_refines_map toy_db toy_working calls empty tt

storage-Settles_example :
    Settles (put toy_db "RSA" 7 (λ args. tell toy_db (failure args)) (λ v. tell toy_db (success v)))
    × Settles (get toy_db "RSA" (λ args. tell toy_db (failure args)) (λ v. tell toy_db (success v)))
    × Settles
        (delete toy_db "RSA" (λ args. tell toy_db (failure args)) (λ v. tell toy_db (success v)))
storage-Settles_example =
    storage-Settles toy_db "RSA" 7 (λ args. tell toy_db (failure args))
      (λ v. tell toy_db (success v)) (λ args w. (failure args, refl, refl))
      (λ v w. (success v, refl, refl))

-- A key that was put is found, and one that was deleted is not.
told :
    replies calls (λ name. none)
    ≡ event (success none)
      ∷ event (success (some 7))
      ∷ event (success none)
      ∷ event (success none)
      ∷ []
told = refl
