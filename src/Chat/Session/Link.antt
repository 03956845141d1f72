-- ===== src/Chat/Session/Link.antt =====
-- The event stream of one chat: the socket effect of
-- apps/web/src/core/chat/createChatSession.ts. Timers and the socket fire as calls of the
-- environment; `JSON.parse` and the cast of a frame to its type are arguments.
pub mod Backoff
pub mod Invariant
pub mod Life
use agentgrove.Base.{
  Bool, Option, Str, [], codes, false, if◌then◌else◌, min, none, some, true, ℕ, ◌*◌, ◌≡◌,
}
use agentgrove.Base.Json.{Json, get_member, is_truthy}
use agentgrove.Chat.Types.{ChatStore, WsFrame}
use agentgrove.Chat.Frames.{Message, RawFrame, binary, parse_ws_frame, text}
use agentgrove.Chat.Session.{Answer, failed, ok}
use agentgrove.Chat.Session.Batching.{Feed, enqueue, flush}

abbrev pub reconnect_base_ms : ℕ
reconnect_base_ms = 1000

abbrev pub reconnect_max_ms : ℕ
reconnect_max_ms = 10000

-- `has_socket`: `socket` is not null; `connect_armed`, `reconnect_timer`: the timers that are set,
-- the second with its delay.
pub record Link : Type 0 where
  pub feed : Feed
  pub has_socket : Bool
  pub closed : Bool
  pub connect_armed : Bool
  pub reconnect_timer : Option ℕ
  pub reconnect_delay : ℕ
  pub error_message : Option Str

abbrev pub fresh_link : ChatStore → Link
fresh_link s = record {
  feed = record { store = s; pending = []; armed = false };
  has_socket = false;
  closed = false;
  connect_armed = true;
  reconnect_timer = none;
  reconnect_delay = reconnect_base_ms;
  error_message = none;
}

-- The constructor of the socket may throw.
unfoldable pub connect : Answer (Unit {0}) → Link → Link
connect answer l = if l.closed then l else elim answer [
  | ok _ ↦ record l { has_socket = true }
  | failed message ↦ record l { error_message = some message }
]

unfoldable pub on_connect_timer : Answer (Unit {0}) → Link → Link
unfolding connect
on_connect_timer answer l = connect answer (record l { connect_armed = false })

unfoldable pub on_open : Link → Link
on_open l = record l { reconnect_delay = reconnect_base_ms }

-- What the server tells the session apart from frames: each makes it reconcile.
pub data Signal : Type 0 where
  subscribed queue_dispatched chat_idle : Signal

abbrev pub signal_in : Json → Option Signal
signal_in parsed =
    if is_truthy (get_member (codes "subscribed") parsed)
    then some subscribed
    else (if is_truthy (get_member (codes "queue_dispatched") parsed)
        then some queue_dispatched
        else (if is_truthy (get_member (codes "chat_idle") parsed) then some chat_idle else none))

unfoldable pub signal_of : (Str → Option Json) → Message → Option Signal
signal_of parse binary = none
signal_of parse (text raw) = elim (parse raw) [ none ↦ none | some parsed ↦ signal_in parsed ]

abbrev pub enqueue_raw : (RawFrame → WsFrame) → Option RawFrame → Link → Link
enqueue_raw decode none l = l
enqueue_raw decode (some f) l = record l { feed = enqueue l.feed (decode f) }

-- The second part is the signal that the session acts on.
unfoldable pub on_message :
    (Str → Option Json) → (RawFrame → WsFrame) → Message → Link → Link × Option Signal
unfolding signal_of
on_message parse decode m l = if l.closed then (l, none) else elim (signal_of parse m) [
  | some signal ↦ (l, some signal)
  | none ↦ (enqueue_raw decode (parse_ws_frame parse m) l, none)
]

unfoldable pub on_close : Link → Link
on_close l =
    if l.closed
    then record l { has_socket = false }
    else record l { has_socket = false; reconnect_timer = some l.reconnect_delay }

unfoldable pub on_reconnect_timer : Answer (Unit {0}) → Link → Link
unfolding connect
on_reconnect_timer answer l = connect answer (record l {
  reconnect_timer = none;
  reconnect_delay = min (l.reconnect_delay * 2) reconnect_max_ms;
})

unfoldable pub on_flush_timer : Link → Link
on_flush_timer l = record l { feed = flush l.feed }

-- `onCleanup`; the socket that is closed here goes with its `close` event.
unfoldable pub cleanup : Link → Link
cleanup l = record l {
  closed = true;
  feed = flush l.feed;
  connect_armed = false;
  reconnect_timer = none;
}

-- One event of the environment; a timer fires only where it is set, and only a socket that is
-- there has events.
pub data LinkStep (parse : Str → Option Json) (decode : RawFrame → WsFrame) (l : Link)
    : Link → Type 0 where
  connects :
      (answer : Answer (Unit {0}))
      → l.connect_armed ≡ true
      → LinkStep parse decode l (on_connect_timer answer l)
  opens : l.has_socket ≡ true → LinkStep parse decode l (on_open l)
  receives :
      (m : Message) → l.has_socket ≡ true → LinkStep parse decode l (on_message parse decode m l).0
  drops : l.has_socket ≡ true → LinkStep parse decode l (on_close l)
  retries :
      (answer : Answer (Unit {0})) (delay : ℕ)
      → l.reconnect_timer ≡ some delay
      → LinkStep parse decode l (on_reconnect_timer answer l)
  flushes : l.feed.armed ≡ true → LinkStep parse decode l (on_flush_timer l)
  cleans : LinkStep parse decode l (cleanup l)

pub data LinkReach (parse : Str → Option Json) (decode : RawFrame → WsFrame) (l : Link)
    : Link → Type 0 where
  stays : LinkReach parse decode l l
  moves :
      {k m : Link}
      → LinkReach parse decode l k
      → LinkStep parse decode k m
      → LinkReach parse decode l m
