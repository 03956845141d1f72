-- ===== src/Db.antt =====
-- The shared state of the Database feature: its signals and the readings of them
-- (apps/web/src/core/stores/db.ts). The URL class of the browser is the argument `Urls`.
pub mod Calls
pub mod Switches
pub mod Pages
pub mod Prefetch
mod Examples
use agentgrove.Base.{
  Bool, Dict, List, Option, Str, [], codes, drop, false, filter, find, if◌then◌else◌, includes,
  none, some, starts_with, trim, truthy, ℕ, ◌++◌, ◌===◌,
}
use agentgrove.Base.Json.{Json}

abbrev pub db_page_limit : ℕ
db_page_limit = 50

pub record DbConnection : Type 0 where
  pub id : Str
  pub name : Str
  pub url : Str

pub record DbColumn : Type 0 where
  pub name : Str
  pub data_type : Str

pub record DbQueryResponse : Type 0 where
  pub columns : List Str
  pub rows : List (List Json)
  pub affected_rows : Option ℕ

pub record DbState : Type 0 where
  pub connections : List DbConnection
  pub active_conn_id : Option Str
  pub tables : List Str
  pub column_cache : Dict (List Str)
  pub databases : List Str
  pub active_db : Str
  pub expanded_dbs : List Str
  pub tables_by_db : Dict (List Str)
  pub table_filter : Str
  pub selected_table : Option Str
  pub columns : List DbColumn
  pub rows : Option DbQueryResponse
  pub sql : Str
  pub loading : Bool
  pub filter_col : Str
  pub filter_op : Str
  pub filter_val : Str
  pub offset : ℕ
  pub prefetch_token : ℕ

abbrev pub initial_db : DbState
initial_db = record {
  connections = [];
  active_conn_id = none;
  tables = [];
  column_cache = [];
  databases = [];
  active_db = [];
  expanded_dbs = [];
  tables_by_db = [];
  table_filter = [];
  selected_table = none;
  columns = [];
  rows = none;
  sql = [];
  loading = false;
  filter_col = [];
  filter_op = codes "=";
  filter_val = [];
  offset = 0;
  prefetch_token = 0;
}

-- The parts of a URL that the code reads, and the calls of the browser: `new URL`, `toString` after
-- `pathname` is set, `decodeURIComponent` and `encodeURIComponent`.
pub record ParsedUrl : Type 0 where
  pub username : Str
  pub hostname : Str
  pub port : Str
  pub pathname : Str

pub record Urls : Type 0 where
  pub parse : Str → Option ParsedUrl
  pub with_pathname : Str → Str → Str
  pub decode : Str → Option Str
  pub encode : Str → Str

abbrev pub has_conn_id : Option Str → DbConnection → Bool
has_conn_id none c = false
has_conn_id (some id) c = c.id === id

unfoldable pub active_conn : DbState → Option DbConnection
active_conn s = find (has_conn_id s.active_conn_id) s.connections

abbrev pub matches_filter : (Str → Str) → Str → Str → Bool
matches_filter lower_case f t = includes (lower_case t) f

-- `toLowerCase` is an argument.
unfoldable pub db_filtered_tables : (Str → Str) → DbState → List Str
db_filtered_tables lower_case s =
    let f = lower_case (trim s.table_filter) in
    if truthy f then filter (matches_filter lower_case f) s.tables else s.tables

-- `.replace(/^\//, "")`.
abbrev pub strip_slash : Str → Str
strip_slash path = if starts_with path (codes "/") then drop 1 path else path

unfoldable pub db_conn_subtitle : Urls → Str → Str
db_conn_subtitle urls url = elim (urls.parse url) [
  | none ↦ url
  | some u ↦
      let host = if truthy u.port then u.hostname ++ (codes ":" ++ u.port) else u.hostname in
      u.username ++ (codes "@" ++ (host ++ (codes "/" ++ strip_slash u.pathname)))
]

abbrev pub or_empty : Option Str → Str
or_empty none = []
or_empty (some s) = s

unfoldable pub db_default_db_name : Urls → Str → Str
db_default_db_name urls url = elim (urls.parse url) [
  | none ↦ []
  | some u ↦ or_empty (urls.decode (strip_slash u.pathname))
]

unfoldable pub db_url_for : Urls → Str → Str → Str
db_url_for urls url db = elim (urls.parse url) [
  | none ↦ url
  | some u ↦ urls.with_pathname url (codes "/" ++ urls.encode db)
]

unfoldable pub active_db_url : Urls → DbState → Option Str
unfolding active_conn db_url_for
active_db_url urls s = elim (active_conn s) [
  | none ↦ none
  | some conn ↦ some (if truthy s.active_db then db_url_for urls conn.url s.active_db else conn.url)
]
