-- ===== src/Db/Switches/Late.antt =====
-- Answers that arrive after a switch (apps/web/src/core/stores/db.ts).
use agentgrove.Base.{
  ===_iff, Bool, Bool-cases, Dict, In, List, Option, Option-cases, Str, [], any, ap, false,
  false≢true, foldl, here, if_false, if_true, inl, inr, lookup, refl, some, subst, sym, take, there,
  true, truthy, ◌&&◌, ◌===◌, ◌∙◌, ◌∷◌, ◌≡◌, ◌⊎◌,
}
use agentgrove.Store.Actions.Lookup.{lookup-insert_self}
use agentgrove.Chat.Session.{Answer, ok}
use agentgrove.Db.Prefetch.{prefetch_chunk-current}
use agentgrove.Db.{DbColumn, DbConnection, DbState, Urls, active_db_url}
use agentgrove.Db.Calls.{
  Prefetch, chosen_db, describe, file_tables, first_or_empty, load_databases_begin,
  load_databases_finish, load_db_tables_begin, load_db_tables_finish, prefetch_chunk,
}
use agentgrove.Db.Switches.{connect_db, disconnect_db, is_active_conn, select_db}

-- Asking for the tables changes nothing but the flag of the spinner.
load_db_tables_begin-flag :
    (urls : Urls) (s : DbState)
    → (b : Bool) × ((load_db_tables_begin urls s).0 ≡ record s { loading = b })
unfolding load_db_tables_begin
load_db_tables_begin-flag urls s = elim (Option-cases (active_db_url urls s)) [
  | inl e ↦ (s.loading, rw (load_db_tables_begin, e) refl)
  | inr (url, e) ↦ elim (Bool-cases (truthy url)) [
    | inl t ↦ (true, rw (load_db_tables_begin, e, t) refl)
    | inr t ↦ (s.loading, rw (load_db_tables_begin, e, t) refl)
  ]
]

active_db-select_db :
    (urls : Urls) (db : Str) (s : DbState)
    → truthy db ≡ true
    → (db === s.active_db) ≡ false
    → (select_db urls db s).0.active_db ≡ db
unfolding select_db
active_db-select_db urls db s t n =
    rw (select_db, t, n) (ap (λ (x : DbState). x.active_db) (load_db_tables_begin-flag urls _).1)

file_tables_self :
    (db : Str) (list : List Str) (m : Dict (List Str))
    → truthy db ≡ true
    → lookup db (file_tables db list m) ≡ some list
file_tables_self db list m t = rw t (lookup-insert_self db list m)

-- The user goes from one database to another while the tables of the first are on their way, and
-- they arrive after those of the second: the tree has then the first's tables under the second's
-- name.
pub load_db_tables_finish-crosses :
    (urls : Urls) (url url' db : Str) (first second : List Str) (s : DbState)
    → truthy db ≡ true
    → (db === s.active_db) ≡ false
    → let late : DbState =
        (load_db_tables_finish url
          (ok first)
          (load_db_tables_finish url' (ok second) (select_db urls db s).0).0).0 in
      (late.active_db ≡ db) × (late.tables ≡ first) × (lookup db late.tables_by_db ≡ some first)
unfolding load_db_tables_finish select_db load_db_tables_begin
load_db_tables_finish-crosses urls url url' db first second s t n =
    let e = active_db-select_db urls db s t n in
    let asked = (select_db urls db s).0.tables_by_db in
    (
      e,
      refl,
      subst (λ (a : Str). lookup db (file_tables a first (file_tables a second asked)) ≡ some first)
          (sym e) (file_tables_self db first _ t),
    )

second_true : (a b : Bool) → (a && b) ≡ true → b ≡ true
second_true true b e = e
second_true false b e = absurd (false≢true e)

any-In : (db : Str) (dbs : List Str) → any (λ d. d === db) dbs ≡ true → In db dbs
any-In db [] e = absurd (false≢true e)
any-In db (d ∷ ds) e = elim (Bool-cases (d === db)) [
  | inl t ↦ here (sym ((===_iff d db).0 t))
  | inr t ↦ there (any-In db ds (sym (rw t refl) ∙ e))
]

abbrev IsChosen : List Str → Str → Type 0
IsChosen dbs db = In db dbs ⊎ ((dbs ≡ []) × (db ≡ []))

chosen_db-IsChosen : (dbs : List Str) (db : Str) → IsChosen dbs (chosen_db dbs db)
chosen_db-IsChosen dbs db = elim (Bool-cases (truthy db && any (λ x. x === db) dbs)) [
  | inl e ↦ subst (IsChosen dbs) (sym (if_true _ _ _ e)) (inl (any-In db dbs (second_true _ _ e)))
  | inr e ↦ subst (IsChosen dbs) (sym (if_false _ _ _ e)) (head_chosen dbs)
]
  where
    head_chosen : (ds : List Str) → IsChosen ds (first_or_empty ds)
    head_chosen [] = inr (refl, refl)
    head_chosen (d ∷ ds) = inl (here refl)

-- When the server has listed its databases, the active one is on the list, or the list is empty and
-- there is none.
pub load_databases_finish-IsListed :
    (urls : Urls) (dbs : List Str) (s : DbState)
    → let listed : DbState = (load_databases_finish urls (ok dbs) s).0 in
      (listed.databases ≡ dbs) × (In listed.active_db dbs ⊎ ((dbs ≡ []) × (listed.active_db ≡ [])))
unfolding load_databases_finish
load_databases_finish-IsListed urls dbs s =
    let db = chosen_db dbs s.active_db in
    let P = λ (t : DbState). (t.databases ≡ dbs) × IsChosen dbs t.active_db in
    let chosen = chosen_db-IsChosen dbs s.active_db in
    elim (Bool-cases (truthy db)) [
      | inl t ↦
          let opened = record s { databases = dbs; active_db = db; expanded_dbs = db ∷ [] } in
          subst P
            (sym (
              ap (λ (r : DbState × Option Str). r.0) (if_true (truthy db) _ _ t)
              ∙ (load_db_tables_begin-flag urls opened).1))
            (refl, chosen)
      | inr t ↦
          subst P (sym (ap (λ (r : DbState × Option Str). r.0) (if_false (truthy db) _ _ t)))
            (refl, chosen)
    ]

-- A prefetch that is in flight when the user disconnects fills the cache again.
pub prefetch_chunk-refills :
    (answers : Str → Answer (List DbColumn)) (p : Prefetch) (s : DbState)
    → p.token ≡ s.prefetch_token
    → (prefetch_chunk answers p (disconnect_db s)).0.column_cache
      ≡ foldl (describe answers) p.acc (take 8 p.todo)
unfolding disconnect_db
prefetch_chunk-refills answers p s e =
    ap (λ (r : DbState × Option Prefetch). r.0.column_cache)
      (prefetch_chunk-current answers p (disconnect_db s) e)

-- The first state with what the second shows of its connection.
abbrev pub with_browser : DbState → DbState → DbState
with_browser u s = record s {
  active_conn_id = u.active_conn_id;
  tables = u.tables;
  column_cache = u.column_cache;
  databases = u.databases;
  active_db = u.active_db;
  expanded_dbs = u.expanded_dbs;
  tables_by_db = u.tables_by_db;
  table_filter = u.table_filter;
  selected_table = u.selected_table;
  columns = u.columns;
  rows = u.rows;
  offset = u.offset;
}

-- Connecting to a connection that is not the active one forgets all that the old one showed: what
-- comes out, and what the server is asked, is the same whatever was shown.
pub connect_db-forgets :
    (urls : Urls) (conn : DbConnection) (u s : DbState)
    → is_active_conn s.active_conn_id conn.id ≡ false
    → is_active_conn u.active_conn_id conn.id ≡ false
    → connect_db urls conn (with_browser u s) ≡ connect_db urls conn s
unfolding connect_db
connect_db-forgets urls conn u s h k =
    let entered : DbState → DbState × Option Str = λ t. (t, load_databases_begin t) in
    ap entered (if_false _ _ _ k) ∙ sym (ap entered (if_false _ _ _ h))
