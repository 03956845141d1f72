-- ===== src/Pane/Queue/Polls/Owned.antt =====
-- Whose queue the pane shows (apps/web/src/shells/desktop/panes/ChatPane.tsx).
use agentgrove.Base.{
  All, All-append, All-append_left, All-append_right, Bool, Bool-cases, List, Option, Option-cases,
  Str, [], any, inl, inr, none, not, refl, some, subst, sym, true, ◌&&◌, ◌++◌, ◌===◌, ◌∙◌, ◌∷◌, ◌≡◌,
}
use agentgrove.Chat.Session.{Answer, failed, ok}
use agentgrove.Pane.Queue.{
  QueuePane, QueueState, is_open, refresh_queue_begin, refresh_queue_finish, reorder_queue_begin,
  run_next_queue_begin, send_queue_item_begin, set_busy, set_queue_mode_begin,
  toggle_queue_expanded, without_item,
}
use agentgrove.Pane.Queue.Polls.{
  QueueEdit, QueueWatch, ask, edit_queue, go_to, poll_queue, reorders, runs_next, sends, sets_mode,
  settle, switch_queue, toggles,
}

-- The server answers with the queue of the chat it was asked for, or fails.
abbrev pub IsFrom : Str → Answer QueueState → Type 0
IsFrom id (ok q) = q.chat_id ≡ id
IsFrom id (failed message) = Unit

-- The steps of the pane in which the user goes to another chat only while no queue is on its way.
-- The answers may come in any order.
pub data QueueStep : QueueWatch → QueueWatch → Type 0 where
  goes : {w : QueueWatch} (chat : Option Str) → w.asked ≡ [] → QueueStep w (go_to chat w)
  polls :
      {w : QueueWatch} (visible editing : Bool)
      → QueueStep w (ask (poll_queue w.open_chat visible editing w.pane) w)
  refreshes : {w : QueueWatch} → QueueStep w (ask (refresh_queue_begin w.open_chat w.pane) w)
  answers :
      {w : QueueWatch} (older newer : List Str) (id : Str) (answer : Answer QueueState)
      → w.asked ≡ older ++ id ∷ newer
      → IsFrom id answer
      → QueueStep w (settle (older ++ newer) answer w)
  edits : {w : QueueWatch} (e : QueueEdit) → QueueStep w (record w { pane = edit_queue e w.pane })

pub data QueueReach (w : QueueWatch) : QueueWatch → Type 0 where
  here : QueueReach w w
  next : {u v : QueueWatch} → QueueReach w u → QueueStep u v → QueueReach w v

-- The queue of the pane, if any, is the one of the open chat.
abbrev pub IsOwn : Option Str → Option QueueState → Type 0
IsOwn chat none = Unit
IsOwn none (some q) = ⊥
IsOwn (some id) (some q) = q.chat_id ≡ id

pub record IsOwned (w : QueueWatch) : Type 0 where
  pub own : IsOwn w.open_chat w.pane.queue
  pub asked : All (λ (id : Str). w.open_chat ≡ some id) w.asked

IsOwned-ask :
    (w : QueueWatch) (s : QueuePane) (chat : Option Str)
    → w.open_chat ≡ chat
    → IsOwn w.open_chat s.queue
    → All (λ (id : Str). w.open_chat ≡ some id) w.asked
    → IsOwned (ask (s, chat) w)
IsOwned-ask w s none e o h = record { own = o; asked = h }
IsOwned-ask w s (some id) e o h = record {
  own = o;
  asked = All-append (λ (k : Str). w.open_chat ≡ some k) w.asked (id ∷ []) h (e, tt);
}

IsOwned-refreshes :
    (w : QueueWatch) → IsOwned w → IsOwned (ask (refresh_queue_begin w.open_chat w.pane) w)
unfolding refresh_queue_begin
IsOwned-refreshes w h = elim (Bool-cases (is_open w.open_chat)) [
  | inl e ↦ rw (refresh_queue_begin, e) (IsOwned-ask w w.pane w.open_chat refl h.own h.asked)
  | inr e ↦ rw (refresh_queue_begin, e) (record { own = tt; asked = h.asked })
]

IsOwned-polls :
    (visible editing : Bool) (w : QueueWatch)
    → IsOwned w
    → IsOwned (ask (poll_queue w.open_chat visible editing w.pane) w)
unfolding poll_queue
IsOwned-polls visible editing w h =
    elim (Bool-cases (is_open w.open_chat && (visible && not editing))) [
      | inl e ↦ rw (poll_queue, e) (IsOwned-refreshes w h)
      | inr e ↦ rw (poll_queue, e) (record { own = h.own; asked = h.asked })
    ]

IsOwned-settle :
    (rest : List Str) (id : Str) (answer : Answer QueueState) (w : QueueWatch)
    → IsFrom id answer
    → w.open_chat ≡ some id
    → IsOwn w.open_chat w.pane.queue
    → All (λ (k : Str). w.open_chat ≡ some k) rest
    → IsOwned (settle rest answer w)
unfolding refresh_queue_finish
IsOwned-settle rest id (ok q) w f at o h = record {
  own = subst (λ (c : Option Str). IsOwn c (some q)) (sym at) f;
  asked = h;
}
IsOwned-settle rest id (failed message) w f at o h = record { own = o; asked = h }

IsOwned-answers :
    (older newer : List Str) (id : Str) (answer : Answer QueueState) (w : QueueWatch)
    → w.asked ≡ older ++ id ∷ newer
    → IsFrom id answer
    → IsOwned w
    → IsOwned (settle (older ++ newer) answer w)
IsOwned-answers older newer id answer w e f h =
    let P : Str → Type 0 = λ k. w.open_chat ≡ some k in
    let every : All P (older ++ id ∷ newer) = subst (All P) e h.asked in
    let (at, later) = All-append_right P older (id ∷ newer) every in
    IsOwned-settle (older ++ newer) id answer w f at h.own
      (All-append P older newer (All-append_left P older (id ∷ newer) every) later)

-- A change of the items or of the mode keeps the chat of the queue.
IsOwn-change :
    (chat : Option Str) (q r : QueueState)
    → r.chat_id ≡ q.chat_id
    → IsOwn chat (some q)
    → IsOwn chat (some r)
IsOwn-change none q r e h = h
IsOwn-change (some id) q r e h = e ∙ h

IsOwn-without_item :
    (chat : Option Str) (id : Str) (s : QueuePane)
    → IsOwn chat s.queue
    → IsOwn chat (without_item id s).queue
IsOwn-without_item chat id s h = elim (Option-cases s.queue) [
  | inl e ↦ rw e (subst (IsOwn chat) e h)
  | inr (q, e) ↦ rw e (IsOwn-change chat q _ refl (subst (IsOwn chat) e h))
]

IsOwn-edit_queue :
    (chat : Option Str) (e : QueueEdit) (s : QueuePane)
    → IsOwn chat s.queue
    → IsOwn chat (edit_queue e s).queue
unfolding toggle_queue_expanded run_next_queue_begin send_queue_item_begin reorder_queue_begin
    set_queue_mode_begin
IsOwn-edit_queue chat (toggles id) s h = elim (Bool-cases (any (λ e. e === id) s.expanded)) [
  | inl e ↦ rw (toggle_queue_expanded, e) h
  | inr e ↦ rw (toggle_queue_expanded, e) h
]
IsOwn-edit_queue chat (runs_next []) s h = h
IsOwn-edit_queue chat (runs_next (none ∷ cards)) s h = h
IsOwn-edit_queue chat (runs_next (some first ∷ cards)) s h =
    IsOwn-without_item chat first.id (set_busy true s) h
IsOwn-edit_queue chat (sends id) s h = IsOwn-without_item chat id (set_busy true s) h
IsOwn-edit_queue chat (reorders ids) s h = elim (Option-cases s.queue) [
  | inl e ↦ rw (reorder_queue_begin, e) h
  | inr (q, e) ↦ rw (reorder_queue_begin, e) (IsOwn-change chat q _ refl (subst (IsOwn chat) e h))
]
IsOwn-edit_queue chat (sets_mode mode) s h = elim (Option-cases s.queue) [
  | inl e ↦ rw (set_queue_mode_begin, e) h
  | inr (q, e) ↦ rw (set_queue_mode_begin, e) (IsOwn-change chat q _ refl (subst (IsOwn chat) e h))
]

QueueStep-IsOwned : {v w : QueueWatch} → QueueStep v w → IsOwned v → IsOwned w
unfolding switch_queue
QueueStep-IsOwned {v} (goes chat e) h = record {
  own = tt;
  asked = subst (All (λ (id : Str). chat ≡ some id)) (sym e) tt;
}
QueueStep-IsOwned {v} (polls visible editing) h = IsOwned-polls visible editing v h
QueueStep-IsOwned {v} refreshes h = IsOwned-refreshes v h
QueueStep-IsOwned {v} (answers older newer id answer e f) h =
    IsOwned-answers older newer id answer v e f h
QueueStep-IsOwned {v} (edits e) h = record {
  own = IsOwn-edit_queue v.open_chat e v.pane h.own;
  asked = h.asked;
}

-- On every run of the pane from a state in which it shows no queue, or the one of the open chat, and
-- no other chat's queue is on its way, and in which the user goes to another chat only while no
-- queue is on its way: polls, refreshes, the local edits of the queue, failures, and answers in any
-- order, each with the queue of the chat that was asked for, leave the pane with no queue or with
-- the one of the open chat, and no other chat's queue on its way.
pub QueueReach-IsOwned : {v w : QueueWatch} → IsOwned v → QueueReach v w → IsOwned w
QueueReach-IsOwned h here = h
QueueReach-IsOwned h (next r s) = QueueStep-IsOwned s (QueueReach-IsOwned h r)
