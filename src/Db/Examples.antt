-- ===== src/Db/Examples.antt =====
-- The theorems about the Database store at concrete inputs.
use agentgrove.Base.{
  List, Str, [], arith, codes, false, foldl, lookup, none, refl, some, ◌===◌, ◌∷◌, ◌≡◌,
}
use agentgrove.Chat.Session.{Answer, ok}
use agentgrove.Db.{
  DbColumn, DbConnection, DbState, Urls, active_conn, active_db_url, db_url_for, initial_db,
}
use agentgrove.Db.Calls.{Prefetch, describe, load_db_tables_finish, prefetch_columns}
use agentgrove.Db.Switches.{is_active_conn, select_db}
use agentgrove.Db.Switches.Late.{load_db_tables_finish-crosses}
use agentgrove.Db.Pages.{next_db_page, prev_db_page}
use agentgrove.Db.Pages.Offsets.{IsBrowsing, next_pages, next_pages-requests, rows_from}
use agentgrove.Db.Prefetch.{prefetch_columns-whole}

-- No URL parses.
abbrev raw_urls : Urls
raw_urls = record {
  parse = λ url. none;
  with_pathname = λ url path. url;
  decode = λ s. some s;
  encode = λ s. s;
}

abbrev local : DbConnection
local = record { id = codes "c"; name = codes "Local"; url = codes "u" }

abbrev browsing : DbState
browsing = record initial_db {
  connections = local ∷ [];
  active_conn_id = some (codes "c");
  active_db = codes "a";
  selected_table = some (codes "t");
}

IsBrowsing-browsing : IsBrowsing raw_urls (codes "t") (codes "u") browsing
unfolding active_db_url active_conn db_url_for ◌===◌
IsBrowsing-browsing = record { selected = refl; named = refl; active = refl; reachable = refl }

next_pages-requests_example :
    ((next_db_page raw_urls (next_pages raw_urls 2 browsing)).1
      ≡ some (rows_from (codes "t") (codes "u") 150 browsing))
    × ((prev_db_page raw_urls (next_pages raw_urls 3 browsing)).1
        ≡ some (rows_from (codes "t") (codes "u") 100 browsing))
next_pages-requests_example =
    next_pages-requests raw_urls (codes "t") (codes "u") 2 browsing IsBrowsing-browsing refl

abbrev answers : Str → Answer (List DbColumn)
answers table = ok (record { name = table; data_type = codes "text" } ∷ [])

abbrev prefetch : Prefetch
prefetch = record { token = 0; url = codes "u"; todo = codes "t" ∷ codes "v" ∷ []; acc = [] }

prefetch_columns-whole_example :
    prefetch_columns 2 answers prefetch browsing
    ≡ record browsing { column_cache = foldl (describe answers) [] (codes "t" ∷ codes "v" ∷ []) }
prefetch_columns-whole_example =
    prefetch_columns-whole 2 answers prefetch browsing refl refl (omega arith)

other_active : (codes "b" === codes "a") ≡ false
unfolding ◌===◌
other_active = refl

load_db_tables_finish-crosses_example :
    let late : DbState =
      (load_db_tables_finish
        (codes "u")
        (ok (codes "t" ∷ []))
        (load_db_tables_finish
          (codes "u")
          (ok [])
          (select_db raw_urls (codes "b") browsing).0).0).0 in
    (late.active_db ≡ codes "b")
    × (late.tables ≡ codes "t" ∷ [])
    × (lookup (codes "b") late.tables_by_db ≡ some (codes "t" ∷ []))
load_db_tables_finish-crosses_example =
    load_db_tables_finish-crosses raw_urls (codes "u") (codes "u") (codes "b") (codes "t" ∷ []) []
      browsing refl other_active

abbrev remote : DbConnection
remote = record { id = codes "r"; name = codes "Remote"; url = codes "v" }

not_remote : is_active_conn browsing.active_conn_id remote.id ≡ false
unfolding ◌===◌
not_remote = refl
