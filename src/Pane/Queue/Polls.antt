-- ===== src/Pane/Queue/Polls.antt =====
-- When the pane asks for the queue of its chat, and what a switch of the chat does to it
-- (apps/web/src/shells/desktop/panes/ChatPane.tsx). The timers fire as calls of the environment.
pub mod Owned
use agentgrove.Base.{Bool, List, Option, Str, [], if◌then◌else◌, none, not, some, ◌&&◌, ◌++◌, ◌∷◌}
use agentgrove.Chat.Session.{Answer}
use agentgrove.Pane.Queue.{
  QueueItem, QueueMode, QueuePane, QueueState, is_open, refresh_queue_begin, refresh_queue_finish,
  reorder_queue_begin, run_next_queue_begin, send_queue_item_begin, set_queue_mode_begin,
  toggle_queue_expanded,
}

-- The effect on `activeId()`: the cards of the old chat go at once.
unfoldable pub switch_queue : QueuePane → QueuePane
switch_queue s = record s { queue = none }

-- `poll`, with the chat that is open, whether the tab is visible, and whether a card is edited.
unfoldable pub poll_queue : Option Str → Bool → Bool → QueuePane → QueuePane × Option Str
unfolding refresh_queue_begin
poll_queue now visible editing s =
    if is_open now && (visible && not editing) then refresh_queue_begin now s else (s, none)

-- The open chat, the pane, and the chats whose queues are on their way.
pub record QueueWatch : Type 0 where
  pub open_chat : Option Str
  pub pane : QueuePane
  pub asked : List Str

-- The part of a handler before its call of the server.
pub data QueueEdit : Type 0 where
  toggles : Str → QueueEdit
  runs_next : List (Option QueueItem) → QueueEdit
  sends : Str → QueueEdit
  reorders : List Str → QueueEdit
  sets_mode : QueueMode → QueueEdit

abbrev pub edit_queue : QueueEdit → QueuePane → QueuePane
edit_queue (toggles id) s = toggle_queue_expanded id s
edit_queue (runs_next cards) s = run_next_queue_begin cards s
edit_queue (sends id) s = send_queue_item_begin id s
edit_queue (reorders ids) s = reorder_queue_begin ids s
edit_queue (sets_mode mode) s = set_queue_mode_begin mode s

abbrev pub ask : QueuePane × Option Str → QueueWatch → QueueWatch
ask (s, none) w = record w { pane = s }
ask (s, some id) w = record w { pane = s; asked = w.asked ++ id ∷ [] }

abbrev pub go_to : Option Str → QueueWatch → QueueWatch
go_to chat w = record w { open_chat = chat; pane = switch_queue w.pane }

abbrev pub settle : List Str → Answer QueueState → QueueWatch → QueueWatch
settle rest answer w = record w { pane = refresh_queue_finish answer w.pane; asked = rest }
