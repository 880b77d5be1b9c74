-- ===== src/KeyStorage/Map.antt =====
-- The key storage on an IndexedDB that works is a map from names to keys.
use crypto_security_projects.Base.{
  List, [], ◌∷◌, ◌++◌, append_assoc, append-nil, String, Option, none, some, ◌≡◌, ◌∙◌, refl, sym,
  ap, subst,
}
use crypto_security_projects.Runtime.{Arg, Report, event}
use crypto_security_projects.IndexedDb.{IndexedDb}
use crypto_security_projects.IndexedDb.Laws.{Working, updated}
use crypto_security_projects.Storage.{Site, Result, Task}
use crypto_security_projects.Storage.Working.{Keeps, put-Succeeds, get-Succeeds, delete-Succeeds}
use crypto_security_projects.KeyStorage.{put, get, delete}

-- A call of the storage.
pub data Operation (V : Type 0) : Type 0 where
  put_key : String → V → Operation V
  get_key : String → Operation V
  delete_key : String → Operation V

-- A call of a callback.
pub data Reply (V : Type 0) : Type 0 where
  failure : List Arg → Reply V
  success : Option V → Reply V

-- What a map from names to keys does: its contents afterwards, and the replies.
abbrev pub contents_after : {V : Type 0} → Operation V → (String → Option V) → String → Option V
contents_after (put_key key value) contents = updated key (some value) contents
contents_after (get_key key) contents = contents
contents_after (delete_key key) contents = updated key none contents

abbrev pub reply : {V : Type 0} → Operation V → (String → Option V) → Reply V
reply (put_key key value) contents = success none
reply (get_key key) contents = success (contents key)
reply (delete_key key) contents = success none

abbrev pub contents_after_all :
    {V : Type 0} → List (Operation V) → (String → Option V) → String → Option V
contents_after_all [] contents = contents
contents_after_all (op ∷ ops) contents = contents_after_all ops (contents_after op contents)

abbrev pub replies :
    {V : Type 0} → List (Operation V) → (String → Option V) → List (Report (Reply V))
replies [] contents = []
replies (op ∷ ops) contents = event (reply op contents) ∷ replies ops (contents_after op contents)

module _ {V : Type 0} (db : IndexedDb V) where
  open db use {State}

  -- A callback that shows what it is given.
  abbrev pub tell : Reply V → Task State (Reply V)
  tell r w = record { site = record w { reports = w.reports ++ (event r ∷ []) }; thrown = none }

  abbrev pub perform : Operation V → Task State (Reply V)
  perform (put_key key value) =
      put db key value (λ args. tell (failure args)) (λ v. tell (success v))
  perform (get_key key) = get db key (λ args. tell (failure args)) (λ v. tell (success v))
  perform (delete_key key) = delete db key (λ args. tell (failure args)) (λ v. tell (success v))

  -- One call after another, each when the callback of the one before has been called.
  abbrev pub perform_all : List (Operation V) → Site State (Reply V) → Site State (Reply V)
  perform_all [] w = w
  perform_all (op ∷ ops) w = perform_all ops (perform op w).site

  module _ (working : Working db) where
    open working use {IsReady, view}

    perform_lem :
        (op : Operation V) (w : Site State (Reply V))
        → IsReady w.db
        → (s : State) × (perform op w ≡ record {
          site = record {
            db = s;
            reports = w.reports ++ (event (reply op (view w.db).contents) ∷ []);
          };
          thrown = none;
        })
          × Keeps db working (contents_after op (view w.db).contents) w.db s
    unfolding put get delete
    perform_lem (put_key key value) w ready =
        let (s, succeeds, keeps) = put-Succeeds db working key value w ready in
        (s, succeeds _ _ refl, keeps)
    perform_lem (get_key key) w ready =
        let (s, succeeds, keeps) = get-Succeeds db working key w ready in
        (s, succeeds _ _ refl, keeps)
    perform_lem (delete_key key) w ready =
        let (s, succeeds, keeps) = delete-Succeeds db working key w ready in
        (s, succeeds _ _ refl, keeps)

    -- On an IndexedDB that works, any sequence of `put`, `get` and `delete`, each called after the
    -- callback of the one before, calls `onSuccess` alone, with the results that a map from names
    -- to keys gives; in the end the store holds what the map holds, and as many connections are
    -- open as at the start.
    pub storage_refines_map :
        (ops : List (Operation V)) (w : Site State (Reply V))
        → IsReady w.db
        → ((perform_all ops w).reports ≡ w.reports ++ replies ops (view w.db).contents)
          × ((view (perform_all ops w).db).contents ≡ contents_after_all ops (view w.db).contents)
          × ((view (perform_all ops w).db).connections ≡ (view w.db).connections)
    storage_refines_map [] w ready = (sym (append-nil w.reports), refl, refl)
    storage_refines_map (op ∷ ops) w ready =
        let (s, performs, (ready', contents', count')) = perform_lem op w ready in
        let w' : Site State (Reply V) = (perform op w).site in
        let same : w'.db ≡ s = ap (λ (o : Result State (Reply V)). o.site.db) performs in
        let (shown, kept, count) = storage_refines_map ops w' (subst IsReady (sym same) ready') in
        let same_contents : (view w'.db).contents ≡ contents_after op (view w.db).contents =
          ap (λ (s : State). (view s).contents) same ∙ contents' in
        (
          shown
              ∙ ap (λ (rs : List (Report (Reply V))). rs ++ replies ops (view w'.db).contents)
                  (ap (λ (o : Result State (Reply V)). o.site.reports) performs)
              ∙ ap
                  (λ (c : String → Option V).
                    (w.reports ++ (event (reply op (view w.db).contents) ∷ [])) ++ replies ops c)
                  same_contents
              ∙ append_assoc w.reports _ _,
          kept ∙ ap (contents_after_all ops) same_contents,
          count ∙ ap (λ (s : State). (view s).connections) same ∙ count',
        )
