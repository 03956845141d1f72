-- ===== src/Db/Pages.antt =====
-- The rows of a table, page by page, its filter, and the SQL of the user
-- (apps/web/src/core/stores/db.ts). The toasts are left out.
pub mod Offsets
use agentgrove.Base.{
  Bool, List, Option, Str, [], codes, false, if◌then◌else◌, none, some, trim, true, truthy, ℕ, ◌&&◌,
  ◌+◌, ◌-◌,
}
use agentgrove.Chat.Session.{Answer, failed, ok}
use agentgrove.Db.{DbColumn, DbQueryResponse, DbState, Urls, active_db_url, db_page_limit}

-- What `listDbRows` is called with. `listDbColumns` gets the table and the URL.
pub record RowsRequest : Type 0 where
  pub table : Str
  pub connection : Str
  pub limit : ℕ
  pub offset : ℕ
  pub filter_col : Str
  pub filter_op : Str
  pub filter_val : Str

abbrev pub rows_request : Str → Str → DbState → RowsRequest
rows_request table url s = record {
  table = table;
  connection = url;
  limit = db_page_limit;
  offset = s.offset;
  filter_col = s.filter_col;
  filter_op = s.filter_op;
  filter_val = s.filter_val;
}

abbrev pub reset_if : Bool → DbState → DbState
reset_if reset s = if reset then record s { offset = 0 } else s

unfoldable pub load_db_table_data_begin : Urls → Str → Bool → DbState → DbState × Option RowsRequest
load_db_table_data_begin urls table reset s = elim (active_db_url urls s) [
  | none ↦ (s, none)
  | some url ↦
      if truthy url
      then (let asked = record (reset_if reset s) { loading = true } in
          (asked, some (rows_request table url asked)))
      else (s, none)
]

-- `Promise.all` fails with the first of its calls that fails.
unfoldable pub load_db_table_data_finish :
    Str → Answer (List DbColumn) → Answer DbQueryResponse → DbState → DbState
load_db_table_data_finish table (ok cols) (ok page) s = record s {
  columns = cols;
  rows = some page;
  selected_table = some table;
  loading = false;
}
load_db_table_data_finish table _ _ s = record s { loading = false }

-- The query and the URL that the server gets.
unfoldable pub run_db_sql_begin : Urls → DbState → DbState × Option (Str × Str)
run_db_sql_begin urls s = elim (active_db_url urls s) [
  | none ↦ (s, none)
  | some url ↦
      if truthy url && truthy (trim s.sql)
      then (record s { loading = true; selected_table = none }, some (trim s.sql, url))
      else (s, none)
]

unfoldable pub run_db_sql_finish : Answer DbQueryResponse → DbState → DbState
run_db_sql_finish (ok page) s = record s { rows = some page; loading = false }
run_db_sql_finish (failed message) s = record s { loading = false }

-- `const t = dbSelectedTable(); if (t) void loadDbTableData(t, reset);`.
abbrev pub load_if : Urls → Bool → Option Str → DbState → DbState × Option RowsRequest
load_if urls reset none s = (s, none)
load_if urls reset (some t) s =
    if truthy t then load_db_table_data_begin urls t reset s else (s, none)

abbrev pub load_selected : Urls → Bool → DbState → DbState × Option RowsRequest
load_selected urls reset s = load_if urls reset s.selected_table s

unfoldable pub apply_db_filter : Urls → DbState → DbState × Option RowsRequest
apply_db_filter urls s = load_selected urls true s

unfoldable pub clear_db_filter : Urls → DbState → DbState × Option RowsRequest
clear_db_filter urls s =
    load_selected urls true (record s { filter_col = []; filter_op = codes "="; filter_val = [] })

-- `if (!t) return;`.
abbrev pub is_selected : DbState → Bool
is_selected s = elim s.selected_table [ none ↦ false | some t ↦ truthy t ]

unfoldable pub next_db_page : Urls → DbState → DbState × Option RowsRequest
next_db_page urls s =
    if is_selected s
    then load_selected urls false (record s { offset = s.offset + db_page_limit })
    else (s, none)

-- `Math.max(0, o - 50)`.
unfoldable pub prev_db_page : Urls → DbState → DbState × Option RowsRequest
prev_db_page urls s =
    if is_selected s
    then load_selected urls false (record s { offset = s.offset - db_page_limit })
    else (s, none)
