-- ===== src/Db/Calls.antt =====
-- The calls of the server that fill the store of the Database feature, each as the handler before
-- its await and the one after it (apps/web/src/core/stores/db.ts). The toasts are left out.
use agentgrove.Base.{
  Dict, List, Option, Str, [], any, drop, false, foldl, if◌then◌else◌, insert, map, none, some, suc,
  take, true, truthy, zero, ℕ, ◌&&◌, ◌===◌, ◌==◌, ◌∷◌,
}
use agentgrove.Chat.Session.{Answer, failed, ok}
use agentgrove.Db.{DbColumn, DbState, Urls, active_conn, active_db_url, db_url_for}

-- A prefetch in flight: its number, the tables that are left, and what it has found.
pub record Prefetch : Type 0 where
  pub token : ℕ
  pub url : Str
  pub todo : List Str
  pub acc : Dict (List Str)

abbrev pub prefetch_chunk_size : ℕ
prefetch_chunk_size = 8

abbrev pub column_names : List DbColumn → List Str
column_names cols = map (λ (c : DbColumn). c.name) cols

-- The description of one table; a table that cannot be described is skipped.
abbrev pub put_columns : Str → Dict (List Str) → Answer (List DbColumn) → Dict (List Str)
put_columns table acc (ok cols) = insert table (column_names cols) acc
put_columns table acc (failed message) = acc

abbrev pub describe : (Str → Answer (List DbColumn)) → Dict (List Str) → Str → Dict (List Str)
describe answers acc table = put_columns table acc (answers table)

abbrev pub start_prefetch : Str → List Str → DbState → DbState × Prefetch
start_prefetch url tables s = (
  record s { prefetch_token = suc s.prefetch_token },
  record { token = suc s.prefetch_token; url = url; todo = tables; acc = [] },
)

-- The answers of one chunk have come. The prefetch goes on where it is the newest.
unfoldable pub prefetch_chunk :
    (Str → Answer (List DbColumn)) → Prefetch → DbState → DbState × Option Prefetch
prefetch_chunk answers p s =
    let acc = foldl (describe answers) p.acc (take prefetch_chunk_size p.todo) in
    if p.token == s.prefetch_token
    then (
      record s { column_cache = acc },
      some (record p { todo = drop prefetch_chunk_size p.todo; acc = acc }),
    )
    else (s, none)

-- The loop with nothing else going on.
unfoldable pub prefetch_columns : ℕ → (Str → Answer (List DbColumn)) → Prefetch → DbState → DbState
unfolding prefetch_chunk
prefetch_columns zero answers p s = s
prefetch_columns (suc fuel) answers p s = elim p.todo [
  | [] ↦ s
  | t ∷ ts ↦
      let r = prefetch_chunk answers p s in
      elim r.1 [ none ↦ r.0 | some q ↦ prefetch_columns fuel answers q r.0 ]
]

-- `listDbTables` is called with this URL, where there is one.
unfoldable pub load_db_tables_begin : Urls → DbState → DbState × Option Str
load_db_tables_begin urls s = elim (active_db_url urls s) [
  | none ↦ (s, none)
  | some url ↦ if truthy url then (record s { loading = true }, some url) else (s, none)
]

abbrev pub put_tables : Str → List Str → DbState → DbState
put_tables db list s = record s { tables_by_db = insert db list s.tables_by_db }

abbrev pub file_tables : Str → List Str → Dict (List Str) → Dict (List Str)
file_tables db list m = if truthy db then insert db list m else m

unfoldable pub load_db_tables_finish : Str → Answer (List Str) → DbState → DbState × Option Prefetch
load_db_tables_finish url (ok list) s =
    let (started, p) = start_prefetch url list (record s {
      tables = list;
      tables_by_db = file_tables s.active_db list s.tables_by_db;
      column_cache = [];
      loading = false;
    }) in
    (started, some p)
load_db_tables_finish url (failed message) s = (record s { tables = []; loading = false }, none)

-- What `loadDatabases` asks the server of.
unfoldable pub load_databases_begin : DbState → Option Str
load_databases_begin s = elim (active_conn s) [ none ↦ none | some conn ↦ some conn.url ]

abbrev pub first_or_empty : List Str → Str
first_or_empty [] = []
first_or_empty (db ∷ dbs) = db

abbrev pub chosen_db : List Str → Str → Str
chosen_db dbs db = if truthy db && any (λ d. d === db) dbs then db else first_or_empty dbs

-- The tables are loaded after it, where there is a database, and where the server refuses the list.
unfoldable pub load_databases_finish : Urls → Answer (List Str) → DbState → DbState × Option Str
unfolding load_db_tables_begin
load_databases_finish urls (ok dbs) s =
    let active = chosen_db dbs s.active_db in
    if truthy active
    then load_db_tables_begin urls
        (record s { databases = dbs; active_db = active; expanded_dbs = active ∷ [] })
    else (record s { databases = dbs; active_db = active }, none)
load_databases_finish urls (failed message) s = load_db_tables_begin urls s

unfoldable pub load_tables_for_db_begin : Urls → Str → DbState → Option Str
load_tables_for_db_begin urls db s = elim (active_conn s) [
  | none ↦ none
  | some conn ↦ some (db_url_for urls conn.url db)
]

unfoldable pub load_tables_for_db_finish : Str → Answer (List Str) → DbState → DbState
load_tables_for_db_finish db (ok list) s = put_tables db list s
load_tables_for_db_finish db (failed message) s = s
