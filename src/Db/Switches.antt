-- ===== src/Db/Switches.antt =====
-- Connections and databases: connecting, disconnecting, the active database and the tree of the
-- left rail (apps/web/src/core/stores/db.ts). The entry of the local storage is left out.
pub mod Late
use agentgrove.Base.{
  Bool, List, Option, Str, [], any, false, filter, if◌then◌else◌, lookup, none, not, some, truthy,
  ◌++◌, ◌===◌, ◌||◌, ◌∷◌,
}
use agentgrove.Db.{DbConnection, DbState, Urls, db_default_db_name}
use agentgrove.Db.Calls.{load_databases_begin, load_db_tables_begin, load_tables_for_db_begin}

abbrev pub is_active_conn : Option Str → Str → Bool
is_active_conn none id = false
is_active_conn (some a) id = a === id

abbrev pub enter_conn : Urls → DbConnection → DbState → DbState
enter_conn urls conn s = record s {
  active_conn_id = some conn.id;
  selected_table = none;
  rows = none;
  columns = [];
  offset = 0;
  table_filter = [];
  tables = [];
  column_cache = [];
  databases = [];
  tables_by_db = [];
  expanded_dbs = [];
  active_db = db_default_db_name urls conn.url;
}

-- The list of databases is asked for in either case.
unfoldable pub connect_db : Urls → DbConnection → DbState → DbState × Option Str
connect_db urls conn s =
    let entered = if is_active_conn s.active_conn_id conn.id then s else enter_conn urls conn s in
    (entered, load_databases_begin entered)

unfoldable pub disconnect_db : DbState → DbState
disconnect_db s = record s {
  active_conn_id = none;
  tables = [];
  column_cache = [];
  databases = [];
  tables_by_db = [];
  expanded_dbs = [];
  active_db = [];
  selected_table = none;
  rows = none;
  columns = [];
}

-- `next.add(db)` of a set in the order of insertion.
abbrev pub add_db : Str → List Str → List Str
add_db db dbs = if any (λ d. d === db) dbs then dbs else dbs ++ db ∷ []

unfoldable pub select_db : Urls → Str → DbState → DbState × Option Str
select_db urls db s =
    if not (truthy db) || db === s.active_db
    then (record s { expanded_dbs = add_db db s.expanded_dbs }, none)
    else load_db_tables_begin urls (record s {
      active_db = db;
      expanded_dbs = add_db db s.expanded_dbs;
      selected_table = none;
      rows = none;
      columns = [];
    })

unfoldable pub toggle_db_expanded : Urls → Str → DbState → DbState × Option Str
toggle_db_expanded urls db s =
    if any (λ d. d === db) s.expanded_dbs
    then (record s { expanded_dbs = filter (λ d. not (d === db)) s.expanded_dbs }, none)
    else (let opened = record s { expanded_dbs = s.expanded_dbs ++ db ∷ [] } in
        elim (lookup db s.tables_by_db) [
          | none ↦ (opened, load_tables_for_db_begin urls db opened)
          | some list ↦ (opened, none)
        ])
