-- ===== src/Db/Pages/Offsets.antt =====
-- The pages of a table: the offsets that the code reaches (apps/web/src/core/stores/db.ts).
use agentgrove.Base.{
  Option, Str, ap, arith, false, if_true, refl, some, subst, suc, sym, true, truthy, zero, ℕ, ◌*◌,
  ◌+◌, ◌-◌, ◌∙◌, ◌≡◌,
}
use agentgrove.Db.{DbState, Urls, active_conn, active_db_url, db_page_limit}
use agentgrove.Db.Pages.{
  RowsRequest, is_selected, load_db_table_data_begin, load_if, load_selected, next_db_page,
  prev_db_page, rows_request,
}

-- A table is selected, and the active database has a URL.
pub record IsBrowsing (urls : Urls) (table url : Str) (s : DbState) : Type 0 where
  pub selected : s.selected_table ≡ some table
  pub named : truthy table ≡ true
  pub active : active_db_url urls s ≡ some url
  pub reachable : truthy url ≡ true

abbrev pub at_offset : ℕ → DbState → DbState
at_offset n s = record s { offset = n; loading = true }

-- The page is asked for where the state stands.
load_kept :
    (urls : Urls) (table url : Str) (s : DbState)
    → active_db_url urls s ≡ some url
    → truthy url ≡ true
    → load_db_table_data_begin urls table false s
      ≡ (at_offset s.offset s, some (rows_request table url (at_offset s.offset s)))
unfolding load_db_table_data_begin
load_kept urls table url s a r = simp (load_db_table_data_begin, a, r)

load_selected_kept :
    (urls : Urls) (table url : Str) (s : DbState)
    → IsBrowsing urls table url s
    → load_selected urls false s
      ≡ (at_offset s.offset s, some (rows_request table url (at_offset s.offset s)))
load_selected_kept urls table url s b =
    ap (λ (o : Option Str). load_if urls false o s) b.selected
    ∙ if_true (truthy table) _ _ b.named
    ∙ load_kept urls table url s b.active b.reachable

is_selected_lem :
    (urls : Urls) (table url : Str) (s : DbState)
    → IsBrowsing urls table url s
    → is_selected s ≡ true
is_selected_lem urls table url s b = rw b.selected b.named

IsBrowsing-at_offset :
    (urls : Urls) (table url : Str) (n : ℕ) (s : DbState)
    → IsBrowsing urls table url s
    → IsBrowsing urls table url (at_offset n s)
unfolding active_db_url active_conn
IsBrowsing-at_offset urls table url n s b = record {
  selected = b.selected;
  named = b.named;
  active = b.active;
  reachable = b.reachable;
}

IsBrowsing-offset :
    (urls : Urls) (table url : Str) (n : ℕ) (s : DbState)
    → IsBrowsing urls table url s
    → IsBrowsing urls table url (record s { offset = n })
unfolding active_db_url active_conn
IsBrowsing-offset urls table url n s b = record {
  selected = b.selected;
  named = b.named;
  active = b.active;
  reachable = b.reachable;
}

abbrev pub browsed : Str → Str → ℕ → DbState → DbState × Option RowsRequest
browsed table url n s = (at_offset n s, some (rows_request table url (at_offset n s)))

next_db_page_lem :
    (urls : Urls) (table url : Str) (s : DbState)
    → IsBrowsing urls table url s
    → next_db_page urls s ≡ browsed table url (s.offset + db_page_limit) s
unfolding next_db_page
next_db_page_lem urls table url s b =
    if_true (is_selected s) _ _ (is_selected_lem urls table url s b)
    ∙ load_selected_kept urls table url _ (IsBrowsing-offset urls table url _ s b)

prev_db_page_lem :
    (urls : Urls) (table url : Str) (s : DbState)
    → IsBrowsing urls table url s
    → prev_db_page urls s ≡ browsed table url (s.offset - db_page_limit) s
unfolding prev_db_page
prev_db_page_lem urls table url s b =
    if_true (is_selected s) _ _ (is_selected_lem urls table url s b)
    ∙ load_selected_kept urls table url _ (IsBrowsing-offset urls table url _ s b)

-- `nextDbPage`, n times.
abbrev pub next_pages : Urls → ℕ → DbState → DbState
next_pages urls zero s = s
next_pages urls (suc n) s = (next_db_page urls (next_pages urls n s)).0

next_pages_lem :
    (urls : Urls) (table url : Str) (n : ℕ) (s : DbState)
    → IsBrowsing urls table url s
    → IsBrowsing urls table url (next_pages urls n s)
      × ((next_pages urls n s).offset ≡ s.offset + n * db_page_limit)
next_pages_lem urls table url zero s b = (b, omega arith)
next_pages_lem urls table url (suc n) s b =
    let (c, e) = next_pages_lem urls table url n s b in
    let at = next_db_page_lem urls table url (next_pages urls n s) c in
    (
      subst (IsBrowsing urls table url) (sym (ap (λ (r : DbState × Option RowsRequest). r.0) at))
          (IsBrowsing-at_offset urls table url _ _ c),
      ap (λ (r : DbState × Option RowsRequest). r.0.offset) at ∙ omega (arith, e),
    )

-- The second state has the filter of the first.
record HasFilter (s t : DbState) : Type 0 where
  col : t.filter_col ≡ s.filter_col
  op : t.filter_op ≡ s.filter_op
  val : t.filter_val ≡ s.filter_val

HasFilter-next_pages :
    (urls : Urls) (table url : Str) (n : ℕ) (s : DbState)
    → IsBrowsing urls table url s
    → HasFilter s (next_pages urls n s)
HasFilter-next_pages urls table url zero s b = record { col = refl; op = refl; val = refl }
HasFilter-next_pages urls table url (suc n) s b =
    let c = (next_pages_lem urls table url n s b).0 in
    let h = HasFilter-next_pages urls table url n s b in
    let at =
      ap (λ (r : DbState × Option RowsRequest). r.0)
        (next_db_page_lem urls table url (next_pages urls n s) c) in
    record {
      col = ap (λ (t : DbState). t.filter_col) at ∙ h.col;
      op = ap (λ (t : DbState). t.filter_op) at ∙ h.op;
      val = ap (λ (t : DbState). t.filter_val) at ∙ h.val;
    }

-- The request for 50 rows of the table at most, from the offset on, with the filter of the state.
abbrev pub rows_from : Str → Str → ℕ → DbState → RowsRequest
rows_from table url offset s = record {
  table = table;
  connection = url;
  limit = 50;
  offset = offset;
  filter_col = s.filter_col;
  filter_op = s.filter_op;
  filter_val = s.filter_val;
}

rows_request-rows_from :
    (table url : Str) (n : ℕ) (s t : DbState)
    → HasFilter s t
    → rows_request table url (at_offset n t) ≡ rows_from table url n s
rows_request-rows_from table url n s t h = λ i. record {
  table = table;
  connection = url;
  limit = 50;
  offset = n;
  filter_col = h.col i;
  filter_op = h.op i;
  filter_val = h.val i;
}

-- After n pages from the start of a table, one more step forward asks the server for 50 rows of the
-- table at most, from 50 * (n + 1) on, and a step back from there for those from 50 * n on, each from
-- the database that is open and with the filter that was set at the start.
pub next_pages-requests :
    (urls : Urls) (table url : Str) (n : ℕ) (s : DbState)
    → IsBrowsing urls table url s
    → s.offset ≡ 0
    → ((next_db_page urls (next_pages urls n s)).1 ≡ some (rows_from table url ((n + 1) * 50) s))
      × ((prev_db_page urls (next_pages urls (n + 1) s)).1 ≡ some (rows_from table url (n * 50) s))
next_pages-requests urls table url n s b z =
    let (c, e) = next_pages_lem urls table url n s b in
    let (d, f) = next_pages_lem urls table url (n + 1) s b in
    let asked : DbState × Option RowsRequest → Option RowsRequest = λ r. r.1 in
    (
      ap asked (next_db_page_lem urls table url (next_pages urls n s) c)
          ∙ ap some
              (rows_request-rows_from table url _ s _ (HasFilter-next_pages urls table url n s b))
          ∙ ap (λ (k : ℕ). some (rows_from table url k s)) (omega (arith, e, z)),
      ap asked (prev_db_page_lem urls table url (next_pages urls (n + 1) s) d)
          ∙ ap some (
              rows_request-rows_from table url _ s _
                (HasFilter-next_pages urls table url (n + 1) s b))
          ∙ ap (λ (k : ℕ). some (rows_from table url k s)) (omega (arith, f, z)),
    )
