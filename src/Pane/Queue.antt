-- ===== src/Pane/Queue.antt =====
-- The queue of a chat: what the pane shows of it, and its handlers, each as the part before its
-- calls of the server and the part after them
-- (apps/web/src/shells/desktop/panes/ChatPane.tsx).
pub mod Visible
pub mod Cached
pub mod Shown
pub mod Polls
pub mod Reordered
pub mod Dropped
use agentgrove.Base.{
  Bool, Dict, List, Option, Str, [], any, codes, erase_idx, false, filter, find_index, foldl,
  if◌then◌else◌, includes, insert, lookup, map, none, not, some, suc, true, truthy, zero, ℕ, ◌&&◌,
  ◌++◌, ◌===◌, ◌||◌, ◌∷◌,
}
use agentgrove.Chat.Types.{Prompt}
use agentgrove.Chat.Session.{Answer, failed, ok}

pub data QueueStatus : Type 0 where
  pending : QueueStatus
  running : QueueStatus
  done : QueueStatus
  cancelled : QueueStatus

pub data QueueMode : Type 0 where
  auto : QueueMode
  manual : QueueMode

pub record QueueItem : Type 0 where
  pub id : Str
  pub chat_id : Str
  pub body : Str
  pub status : QueueStatus
  pub created_at : Str

pub record QueueState : Type 0 where
  pub chat_id : Str
  pub mode : QueueMode
  pub items : List QueueItem

-- The signals `queueState`, `queueExpanded`, `queueBusy` and `err`.
pub record QueuePane : Type 0 where
  pub queue : Option QueueState
  pub expanded : List Str
  pub busy : Bool
  pub error_message : Option Str

abbrev pub is_pending : QueueItem → Bool
is_pending i = elim i.status [ pending ↦ true | running ↦ false | done ↦ false | cancelled ↦ false ]

abbrev pub is_running : QueueItem → Bool
is_running i = elim i.status [ pending ↦ false | running ↦ true | done ↦ false | cancelled ↦ false ]

abbrev pub has_item_id : Str → QueueItem → Bool
has_item_id id i = i.id === id

abbrev pub items_of : Option QueueState → List QueueItem
items_of none = []
items_of (some q) = q.items

-- An item that has become a prompt of the timeline is hidden, unless it is pending.
abbrev pub is_visible : List Prompt → QueueItem → Bool
is_visible prompts i = is_pending i || not (any (λ (p : Prompt). p.content === i.body) prompts)

unfoldable pub visible_items : List Prompt → QueuePane → List QueueItem
visible_items prompts s = filter (is_visible prompts) (items_of s.queue)

abbrev pub same_status : QueueStatus → QueueStatus → Bool
same_status pending pending = true
same_status running running = true
same_status done done = true
same_status cancelled cancelled = true
same_status _ _ = false

abbrev pub looks_same : QueueItem → QueueItem → Bool
looks_same a b =
    a.body === b.body && (same_status a.status b.status && a.created_at === b.created_at)

-- The cache keeps the object of an item that has not changed.
abbrev pub keep_item : Dict QueueItem → QueueItem → Dict QueueItem
keep_item cache i = elim (lookup i.id cache) [
  | none ↦ insert i.id i cache
  | some existing ↦ if looks_same existing i then cache else insert i.id i cache
]

abbrev pub is_shown : List QueueItem → Str × QueueItem → Bool
is_shown items (id, i) = any (has_item_id id) items

unfoldable pub refresh_cache : List QueueItem → Dict QueueItem → Dict QueueItem
refresh_cache items cache = filter (is_shown items) (foldl keep_item cache items)

-- The items that the pane shows, and the cache after it.
unfoldable pub queue_items :
    List Prompt → QueuePane → Dict QueueItem → List (Option QueueItem) × Dict QueueItem
unfolding refresh_cache visible_items
queue_items prompts s cache =
    let items = visible_items prompts s in
    let kept = refresh_cache items cache in (map (λ (i : QueueItem). lookup i.id kept) items, kept)

unfoldable pub queue_locked : QueuePane → Bool
queue_locked s = any is_running (items_of s.queue)

unfoldable pub queue_mode : QueuePane → QueueMode
queue_mode s = elim s.queue [ none ↦ manual | some q ↦ q.mode ]

abbrev pub fail : Str → QueuePane → QueuePane
fail message s = record s { error_message = some message }

-- `activeId()`, where it is truthy.
abbrev pub is_open : Option Str → Bool
is_open none = false
is_open (some id) = truthy id

-- The argument is the chat that is open. The second part is the chat whose queue the server is asked
-- for, where one is: without a chat the queue is cleared at once.
unfoldable pub refresh_queue_begin : Option Str → QueuePane → QueuePane × Option Str
refresh_queue_begin now s = if is_open now then (s, now) else (record s { queue = none }, none)

-- A failed refresh is ignored. The answer is not compared with the chat that is open by then.
unfoldable pub refresh_queue_finish : Answer QueueState → QueuePane → QueuePane
refresh_queue_finish (ok q) s = record s { queue = some q }
refresh_queue_finish (failed message) s = s

abbrev pub finish_if : Option Str → Answer QueueState → QueuePane → QueuePane
finish_if none answer s = s
finish_if (some id) answer s = refresh_queue_finish answer s

-- A refresh in which nothing else happens. The answer counts only where the server is asked.
unfoldable pub refresh_queue : Option Str → Answer QueueState → QueuePane → QueuePane
unfolding refresh_queue_begin refresh_queue_finish
refresh_queue now next s = let begun = refresh_queue_begin now s in finish_if begun.1 next begun.0

unfoldable pub toggle_queue_expanded : Str → QueuePane → QueuePane
toggle_queue_expanded id s =
    if any (λ e. e === id) s.expanded
    then record s { expanded = filter (λ e. not (e === id)) s.expanded }
    else record s { expanded = s.expanded ++ id ∷ [] }

abbrev pub set_busy : Bool → QueuePane → QueuePane
set_busy b s = record s { busy = b }

-- A message with "404" says that the item is gone, which is no error.
abbrev pub fail_unless_gone : Str → QueuePane → QueuePane
fail_unless_gone message s = if includes message (codes "404") then s else fail message s

-- The handlers get the chat that is open when they refresh the queue, and the answer to the refresh.
unfoldable pub cancel_queue_item :
    Option Str → Answer (Unit {0}) → Answer QueueState → QueuePane → QueuePane
unfolding refresh_queue
cancel_queue_item now (ok _) next s = set_busy false (refresh_queue now next s)
cancel_queue_item now (failed message) next s =
    set_busy false (refresh_queue now next (fail_unless_gone message s))

unfoldable pub update_queue_item :
    Option Str → Answer (Unit {0}) → Answer QueueState → QueuePane → QueuePane
unfolding refresh_queue
update_queue_item now (ok _) next s = set_busy false (refresh_queue now next s)
update_queue_item now (failed message) next s = set_busy false (fail message s)

abbrev pub without_item : Str → QueuePane → QueuePane
without_item id s = elim s.queue [
  | none ↦ s
  | some q ↦ record s {
    queue = some (record q { items = filter (λ (i : QueueItem). not (has_item_id id i)) q.items });
  }
]

-- The card of the first item goes at once.
unfoldable pub run_next_queue_begin : List (Option QueueItem) → QueuePane → QueuePane
run_next_queue_begin [] s = set_busy true s
run_next_queue_begin (none ∷ rest) s = set_busy true s
run_next_queue_begin (some first ∷ rest) s = without_item first.id (set_busy true s)

unfoldable pub run_next_queue_finish :
    Option Str → Answer (Unit {0}) → Answer QueueState → QueuePane → QueuePane
unfolding refresh_queue
run_next_queue_finish now (ok _) next s = set_busy false (refresh_queue now next s)
run_next_queue_finish now (failed message) next s =
    set_busy false (fail message (refresh_queue now next s))

unfoldable pub send_queue_item_begin : Str → QueuePane → QueuePane
send_queue_item_begin id s = without_item id (set_busy true s)

unfoldable pub send_queue_item_finish :
    Option Str → Answer (Unit {0}) → Answer QueueState → QueuePane → QueuePane
unfolding refresh_queue
send_queue_item_finish now (ok _) next s = set_busy false (refresh_queue now next s)
send_queue_item_finish now (failed message) next s =
    set_busy false (fail message (refresh_queue now next s))

-- `new Map(items.map((i) => [i.id, i])).get(id)`: the last item with the id.
abbrev pub item_with : Str → List QueueItem → Option QueueItem
item_with id [] = none
item_with id (i ∷ is) = elim (item_with id is) [
  | some j ↦ some j
  | none ↦ if has_item_id id i then some i else none
]

abbrev pub present : Option QueueItem → List QueueItem
present none = []
present (some i) = i ∷ []

abbrev pub in_order : List Str → List QueueItem → List QueueItem
in_order [] items = []
in_order (id ∷ ids) items = present (item_with id items) ++ in_order ids items

-- The running items stay on top.
unfoldable pub reorder_queue_begin : List Str → QueuePane → QueuePane
reorder_queue_begin ids s = elim s.queue [
  | none ↦ s
  | some q ↦ record s {
    queue = some (record q { items = filter is_running q.items ++ in_order ids q.items });
  }
]

unfoldable pub reorder_queue_finish :
    Option Str → Answer QueueState → Answer QueueState → QueuePane → QueuePane
unfolding refresh_queue
reorder_queue_finish now (ok q) next s = record s { queue = some q }
reorder_queue_finish now (failed message) next s = fail message (refresh_queue now next s)

unfoldable pub set_queue_mode_begin : QueueMode → QueuePane → QueuePane
set_queue_mode_begin mode s = elim s.queue [
  | none ↦ s
  | some q ↦ record s { queue = some (record q { mode = mode }) }
]

unfoldable pub set_queue_mode_finish :
    Option Str → Answer (Unit {0}) → Answer QueueState → QueuePane → QueuePane
unfolding refresh_queue
set_queue_mode_finish now (ok _) next s = refresh_queue now next s
set_queue_mode_finish now (failed message) next s = fail message (refresh_queue now next s)

-- `indexOf`.
abbrev pub index_of : Str → List Str → Option ℕ
index_of id ids = find_index (λ i. i === id) ids

-- `next.splice(i, 0, id)`: past the end it adds at the end.
abbrev pub insert_at : ℕ → Str → List Str → List Str
insert_at zero id ids = id ∷ ids
insert_at (suc i) id [] = id ∷ []
insert_at (suc i) id (j ∷ ids) = j ∷ insert_at i id ids

abbrev pub pending_ids : List QueueItem → List Str
pending_ids items = map (λ (i : QueueItem). i.id) (filter (λ i. not (is_running i)) items)

abbrev pub moved : List Str → Str → Option ℕ → Option ℕ → Option (List Str)
moved ids from (some i) (some j) = some (insert_at j from (erase_idx ids i))
moved ids from _ _ = none

-- The new order that a drop of the dragged card on a card asks for, where it asks for one
-- (apps/web/src/shells/desktop/QueueTimeline.tsx).
unfoldable pub on_drop : Option Str → Str → List QueueItem → Option (List Str)
on_drop none target items = none
on_drop (some from) target items =
    if not (truthy from) || from === target
    then none
    else (let ids = pending_ids items in moved ids from (index_of from ids) (index_of target ids))
