-- ===== src/Pane/Examples.antt =====
-- The theorems about the chat pane at concrete inputs.
use agentgrove.Base.{
  ===_iff, All, Dict, List, Str, [], arith, codes, erase_idx, false, false≢true, get_elem?, here,
  length, lookup, map, none, refl, some, sym, true, ℕ, ◌++◌, ◌===◌, ◌∙◌, ◌∷◌, ◌≡◌, ◌≤◌,
}
use agentgrove.Chat.Types.{ChatView, PromptsBackfill, fresh_chat_store}
use agentgrove.Chat.Session.{covers, ok}
use agentgrove.Store.Types.{ChatTab}
use agentgrove.Pane.Queue.{
  QueueItem, QueuePane, QueueState, index_of, manual, on_drop, pending, pending_ids, queue_items,
  refresh_queue_begin, refresh_queue_finish, running,
}
use agentgrove.Pane.Queue.Dropped.{on_drop-moves}
use agentgrove.Pane.Queue.Polls.{QueueWatch, ask, go_to, poll_queue, settle}
use agentgrove.Pane.Queue.Polls.Owned.{
  IsOwned, QueueReach-IsOwned, answers, goes, here, next, polls,
}
use agentgrove.Pane.Queue.Cached.{IsEntryOf}
use agentgrove.Pane.Queue.Visible.{IsVisibleOf}
use agentgrove.Pane.Queue.Shown.{queue_items-IsVisibleOf}
use agentgrove.Pane.Views.Switches.{
  Arrival, arrive_all, arrive_all-paints, loaded, paged, reconciled,
}
use agentgrove.Pane.Scope.Kept.{IsRefreshOf, chats_to_set-IsRefreshOf}
use agentgrove.Pane.Views.{
  PaneViews, cache_chat_view, cached_of, load_chat_finish, paint_from_cache,
}
use agentgrove.Pane.Views.Recent.{cache_all, cache_all-keeps}
use agentgrove.Pane.Scope.{ChatSummary, chats_to_set}
use agentgrove.Pane.Scroll.{ScrollState, Viewport, initial_scroll, on_mutation}
use agentgrove.Pane.Scroll.Kept.{ContentStep-Keeps, Keeps, mutates}
use agentgrove.Pane.Compose.Slash.{
  SlashMenu, SlashSuggestion, apply_slash, last_slash, query_at, update_slash_state,
}
use agentgrove.Pane.Compose.Slash.Applied.{apply_slash-replaces}

abbrev item_a : QueueItem
item_a = record {
  id = codes "a";
  chat_id = codes "c";
  body = codes "x";
  status = running;
  created_at = codes "1";
}

abbrev item_b : QueueItem
item_b = record item_a { id = codes "b"; status = pending }

abbrev queue_ab : QueueState
queue_ab = record { chat_id = codes "c"; mode = manual; items = item_a ∷ item_b ∷ [] }

abbrev pane : QueuePane
pane = record { queue = some queue_ab; expanded = []; busy = true; error_message = none }

abbrev queue_d : QueueState
queue_d = record { chat_id = codes "d"; mode = manual; items = [] }

-- The chat "c" is open, with its queue.
abbrev watch : QueueWatch
watch = record { open_chat = some (codes "c"); pane = pane; asked = [] }

abbrev polled : QueueWatch → QueueWatch
polled w = ask (poll_queue w.open_chat true false w.pane) w

-- The queue is asked for and comes, and only then the user goes to "d" and gets that of "d".
abbrev in_turn : QueueWatch
in_turn =
    settle [] (ok queue_d)
      (polled (go_to (some (codes "d")) (settle [] (ok queue_ab) (polled watch))))

IsOwned-watch : IsOwned watch
IsOwned-watch = record { own = refl; asked = tt }

QueueReach-IsOwned_example : IsOwned in_turn
unfolding poll_queue refresh_queue_begin
QueueReach-IsOwned_example = QueueReach-IsOwned IsOwned-watch (
    next
      (next
        (next
          (next (next here (polls true false)) (answers [] [] (codes "c") (ok queue_ab) refl refl))
          (goes (some (codes "d")) refl))
        (polls true false))
      (answers [] [] (codes "d") (ok queue_d) refl refl))

-- The condition of the theorem is needed: the user goes to "d" before the queue of "c" comes, which
-- then stands in the pane of "d".
crossed_queue :
    (settle [] (ok queue_ab) (go_to (some (codes "d")) (polled watch))).pane.queue ≡ some queue_ab
unfolding refresh_queue_finish
crossed_queue = refl

-- The cache holds the second item as it was before its text was changed, and one that is gone.
abbrev old_cache : Dict QueueItem
old_cache =
    (codes "b", record item_b { body = codes "w" })
    ∷ (codes "e", record item_b { id = codes "e" })
    ∷ []

abbrev chat_c_only : Str → Str
chat_c_only id = codes "c"

queue_items-IsVisibleOf_example :
    (seen : List QueueItem) × IsVisibleOf [] queue_ab.items seen
    × ((queue_items [] pane old_cache).0 ≡ map some seen)
    × All (IsEntryOf chat_c_only) (queue_items [] pane old_cache).1
unfolding ◌===◌
queue_items-IsVisibleOf_example =
    queue_items-IsVisibleOf chat_c_only [] pane old_cache (refl, (refl, tt)) (refl, (refl, tt))
      ((refl, refl), ((refl, refl), tt))

abbrev view : ChatView
view = record {
  id = codes "c";
  project_id = codes "p";
  worktree_id = none;
  title = codes "t";
  provider = codes "v";
  model = codes "m";
  effort = none;
  created_at = codes "1";
  session_id = none;
  prompts = [];
  prompts_total = 0;
  prompts_window = 50;
  events_per_prompt = 200;
}

other_chat : (codes "d" === codes "c") ≡ false
unfolding ◌===◌
other_chat = refl

cache_all-keeps_example :
    (lookup (codes "c") (
        cache_all
          ((codes "d", cached_of view) ∷ [])
          (cache_chat_view (codes "c") (cached_of view) []))
      ≡ some (cached_of view))
    × (length (cache_chat_view (codes "c") (cached_of view) []) ≤ 12)
cache_all-keeps_example =
    cache_all-keeps (codes "c") (cached_of view) ((codes "d", cached_of view) ∷ []) [] (omega arith)
      (other_chat, tt)

abbrev views : PaneViews
views = record { session = record { store = fresh_chat_store; error_message = none }; cache = [] }

abbrev page : PromptsBackfill
page = record { prompts = []; at_start = true }

-- The user has gone to the chat "d": its view, a page of its prompts and its view again come.
abbrev for_d : List Arrival
for_d =
    loaded (codes "d") (some (codes "d")) view
    ∷ paged (codes "d") (some (codes "d")) (ok page)
    ∷ reconciled (codes "d") (some (codes "d")) view
    ∷ []

d_not_c : ¬ (codes "d" ≡ codes "c")
d_not_c e = false≢true (sym other_chat ∙ (===_iff (codes "d") (codes "c")).1 e)

arrive_all-paints_example :
    ((paint_from_cache
        (codes "c")
        (arrive_all for_d (load_chat_finish (codes "c") (some (codes "d")) (ok view) views))).1
      ≡ true)
    × ((paint_from_cache (codes "c") (
          arrive_all for_d
            (load_chat_finish (codes "c") (some (codes "d")) (ok view) views))).0.session.store
        ≡ record fresh_chat_store { view = some view; prompts = []; at_start = covers view })
arrive_all-paints_example =
    arrive_all-paints (codes "c") (some (codes "d")) view for_d views (omega arith)
      (d_not_c, (d_not_c, (d_not_c, tt)))

abbrev tab : ChatTab
tab = record { id = codes "c"; title = codes "t"; draft = some (codes "x") }

-- The server has renamed the chat of the first tab, and has none for the second.
abbrev renamed : ChatSummary
renamed = record { id = codes "c"; title = codes "u"; worktree_id = none }

chats_to_set-IsRefreshOf_example :
    (now : List ChatTab) × (chats_to_set
        (renamed ∷ [])
        true
        (tab ∷ record tab { id = codes "d" } ∷ [])
      ≡ some now)
    × IsRefreshOf (renamed ∷ []) (tab ∷ record tab { id = codes "d" } ∷ []) now
chats_to_set-IsRefreshOf_example =
    chats_to_set-IsRefreshOf (renamed ∷ []) true tab (record tab { id = codes "d" } ∷ [])

abbrev menu : SlashMenu
menu = record { input = []; query = none; idx = 0 }

abbrev fix : SlashSuggestion
fix = record {
  key = codes "k";
  label = codes "/fix";
  hint = codes "command";
  inserted = codes "/fix";
  detail = [];
}

open_query : query_at (codes "a /f") (last_slash (codes "a /f")) ≡ some (codes "f")
open_query = refl

apply_slash-replaces_example :
    (pre : Str) × (codes "a /f" ≡ pre ++ (b'/' ∷ codes "f"))
    × ((update_slash_state (codes "a /f") menu).query ≡ some (codes "f"))
    × (apply_slash fix (record (update_slash_state (codes "a /f") menu) { input = codes "a /f" })
        ≡ record { input = pre ++ fix.inserted; query = none; idx = 0 })
apply_slash-replaces_example = apply_slash-replaces (codes "a /f") (codes "f") fix menu open_query

abbrev reading : ScrollState
reading = record initial_scroll { user_scroll_top = some 100; user_at_bottom = false }

abbrev viewport : Viewport
viewport = record { scroll_top = 180; scroll_height = 2000; client_height = 500 }

ContentStep-Keeps_example : Keeps 100 (on_mutation 5 3 viewport reading)
ContentStep-Keeps_example = ContentStep-Keeps 100 (refl, refl) (mutates 5 3 viewport)

abbrev item_d : QueueItem
item_d = record item_b { id = codes "d" }

dropped :
    on_drop (some (codes "d")) (codes "b") (item_b ∷ item_d ∷ [])
    ≡ some (codes "d" ∷ codes "b" ∷ [])
unfolding on_drop ◌===◌
dropped = refl

on_drop-moves_example :
    (i : ℕ) × (j : ℕ) × (index_of (codes "d") (pending_ids (item_b ∷ item_d ∷ [])) ≡ some i)
    × (index_of (codes "b") (pending_ids (item_b ∷ item_d ∷ [])) ≡ some j)
    × (get_elem? (codes "d" ∷ codes "b" ∷ []) j ≡ some (codes "d"))
    × (erase_idx (codes "d" ∷ codes "b" ∷ []) j ≡ erase_idx (pending_ids (item_b ∷ item_d ∷ [])) i)
on_drop-moves_example = on_drop-moves (codes "d") (codes "b") (item_b ∷ item_d ∷ []) dropped
