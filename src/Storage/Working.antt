-- ===== src/Storage/Working.antt =====
-- `put`, `get` and `delete` of the key storage, on an IndexedDB that works.
use crypto_security_projects.Base.{List, String, Option, none, some, ◌≡◌, ◌∙◌, refl, ap, arith}
use crypto_security_projects.Runtime.{Arg, Settled, resolve}
use crypto_security_projects.IndexedDb.{IndexedDb, Mode, readonly, readwrite}
use crypto_security_projects.IndexedDb.Laws.{Working, View, updated}
use crypto_security_projects.Storage.{
  Site, Task, close_db, dispatch, request, stray_get, open_db, put, get, delete,
}

module _ {V : Type 0} (db : IndexedDb V) (working : Working db) where
  open db use {State, Connection, Transaction}
  open working use {IsReady, IsOpen, IsLive, view}

  -- In the end the storage is ready, with these contents, and no connection is left open.
  abbrev pub Keeps : (String → Option V) → State → State → Type 0
  Keeps contents s s' =
      IsReady s' × ((view s').contents ≡ contents) × ((view s').connections ≡ (view s).connections)

  -- What a request must do: its result, which the code hands on by `f`, and the contents after it.
  abbrev Serves :
      Mode
      → (Transaction → State → Settled (Option V) × State)
      → (Option V → Option V)
      → (String → Option V)
      → Option V
      → (String → Option V)
      → Type 0
  Serves mode ask f contents handed contents' =
      (c : Connection) (t : Transaction) (s : State)
      → IsReady s
      → IsOpen c s
      → IsLive t mode s
      → (view s).contents ≡ contents
      → (result : Option V) × (s' : State) × (ask t s ≡ (resolve result, s'))
        × (f result ≡ handed)
        × IsReady s'
        × IsOpen c s'
        × ((view s').contents ≡ contents')
        × ((view s').connections ≡ (view s).connections)

module _ {V : Type 0} (db : IndexedDb V) (working : Working db) {E : Type 0} where
  open db use {State, Connection, Transaction}
  open working use {IsReady, IsOpen, IsLive, view}

  -- The operation on the site `w` ends in the state `s` of the databases and calls `on_success` with
  -- the result, there.
  abbrev pub Succeeds :
      ((List Arg → Task State E) → (Option V → Task State E) → Task State E)
      → Site State E
      → Option V
      → State
      → Type 0
  Succeeds operation w result s =
      (on_error : List Arg → Task State E) (on_success : Option V → Task State E)
      → (on_success result (record w { db = s })).thrown ≡ none
      → operation on_error on_success w
        ≡ record { site = (on_success result (record w { db = s })).site; thrown = none }

  stray_get_lem :
      (c : Connection) (w : Site State E)
      → IsReady w.db
      → IsOpen c w.db
      → (s : State) × (stray_get db c w ≡ record w { db = s })
        × IsReady s
        × IsOpen c s
        × (view s ≡ view w.db)
  unfolding stray_get
  stray_get_lem c w ready is_open =
      let (t, s, begins, ready', is_open', live, same) =
        working.begins c readwrite w.db ready is_open in
      let (s', gets, ready'', is_open'', same') =
        working.gets c t readwrite "RSA" s ready' is_open' live in
      (s', rw (stray_get, begins, gets) refl, ready'', is_open'', same' ∙ same)

  dispatch_quiet :
      (t : Transaction) (m : Task State E) (w : Site State E)
      → (m w).thrown ≡ none
      → dispatch db t m w ≡ (m w).site
  unfolding dispatch
  dispatch_quiet t m w quiet = rw (dispatch, quiet) refl

  -- The handler of a request that has succeeded.
  abbrev handles :
      (Option V → Task State E) → Transaction → Connection → Option V → Site State E → Site State E
  handles k t c result = dispatch db t (close_db db c (k result))

  request-Succeeds :
      (mode : Mode) (ask : Transaction → State → Settled (Option V) × State)
      (f : Option V → Option V) (handed : Option V) (contents' : String → Option V)
      (w : Site State E)
      → IsReady w.db
      → Serves db working mode ask f (view w.db).contents handed contents'
      → (s : State) × Succeeds
          (λ e k. open_db db e (request db mode ask e (λ result. k (f result))))
          w
          handed
          s
        × Keeps db working contents' w.db s
  unfolding open_db request
  request-Succeeds mode ask f handed contents' w ready serves =
      let (c, s1, opens, ready1, open1, contents1, count1) = working.opens w.db ready in
      let (t, s2, begins, ready2, open2, live, view2) = working.begins c mode s1 ready1 open1 in
      let (result, s3, asks, hands, ready3, open3, contents3, count3) =
        serves c t s2 ready2 open2 live (ap (λ (v : View V). v.contents) view2 ∙ contents1) in
      let (s4, strays, ready4, open4, view4) =
        stray_get_lem c (record w { db = s3 }) ready3 open3 in
      let (ready5, contents5, count5) = working.closes c s4 ready4 open4 in
      let same_count : (view (db.close c s4)).connections ≡ (view w.db).connections = omega (
        arith,
        count1,
        count3,
        count5,
        ap (λ (v : View V). v.connections) view2,
        ap (λ (v : View V). v.connections) view4,
      ) in
      (
        db.close c s4,
        λ e k quiet.
            let run : open_db db e (request db mode ask e (λ result. k (f result))) w
                ≡ record { site = handles k t c (f result) (record w { db = s4 }); thrown = none } =
              rw (open_db, opens, request, begins, asks, strays) refl in
            run
            ∙ ap
                (λ (v : Option V). record {
                  site = handles k t c v (record w { db = s4 });
                  thrown = none;
                })
                hands
            ∙ ap (λ (v : Site State E). record { site = v; thrown = none })
                (dispatch_quiet t (close_db db c (k handed)) (record w { db = s4 }) quiet),
        (ready5, contents5 ∙ ap (λ (v : View V). v.contents) view4 ∙ contents3, same_count),
      )

  pub put-Succeeds :
      (key : String) (value : V) (w : Site State E)
      → IsReady w.db
      → (s : State) × Succeeds (put db key value) w none s
        × Keeps db working (updated key (some value) (view w.db).contents) w.db s
  unfolding put
  put-Succeeds key value w ready =
      request-Succeeds readwrite (λ t s. db.put t "keys" value key s) (λ result. none) none
        (updated key (some value) (view w.db).contents) w ready
        λ c t s ready' is_open live same.
          let (result, s', puts, ready'', is_open', contents', count') =
            working.puts c t value key s ready' is_open live in
          (
            result,
            s',
            puts,
            refl,
            ready'',
            is_open',
            contents' ∙ ap (updated key (some value)) same,
            count',
          )

  pub get-Succeeds :
      (key : String) (w : Site State E)
      → IsReady w.db
      → (s : State) × Succeeds (get db key) w ((view w.db).contents key) s
        × Keeps db working (view w.db).contents w.db s
  unfolding get
  get-Succeeds key w ready =
      request-Succeeds readonly (λ t s. db.get t "keys" key s) (λ result. result)
        ((view w.db).contents key) (view w.db).contents w ready
        λ c t s ready' is_open live same.
          let (s', gets, ready'', is_open', same') =
            working.gets c t readonly key s ready' is_open live in
          (
            (view s).contents key,
            s',
            gets,
            ap (λ (f : String → Option V). f key) same,
            ready'',
            is_open',
            ap (λ (v : View V). v.contents) same' ∙ same,
            ap (λ (v : View V). v.connections) same',
          )

  pub delete-Succeeds :
      (key : String) (w : Site State E)
      → IsReady w.db
      → (s : State) × Succeeds (delete db key) w none s
        × Keeps db working (updated key none (view w.db).contents) w.db s
  unfolding delete
  delete-Succeeds key w ready =
      request-Succeeds readwrite (λ t s. db.delete t "keys" key s) (λ result. result) none
        (updated key none (view w.db).contents) w ready
        λ c t s ready' is_open live same.
          let (s', deletes, ready'', is_open', contents', count') =
            working.deletes c t key s ready' is_open live in
          (
            none,
            s',
            deletes,
            refl,
            ready'',
            is_open',
            contents' ∙ ap (updated key none) same,
            count',
          )
