-- ===== src/Chat/Examples.antt =====
-- The theorems about the chat timeline at concrete inputs.
use agentgrove.Base.{
  All, List, Option, Str, [], ap, arith, codes, false, find, foldl, head?, if◌then◌else◌, none,
  refl, some, some_inj, trim, true, truthy, ℕ, ◌===◌, ◌↔◌, ◌∷◌, ◌≡◌, ◌≢◌,
}
use agentgrove.Base.Int.{ℤ}
use agentgrove.Base.Json.{Fields, Json, member}
use agentgrove.Chat.Types.{
  AgentEvent, ChatStore, ChatView, Prompt, PromptsBackfill, WsFrame, dispatched, done,
  fresh_chat_store, has_id, session_start, token, truncated,
}
use agentgrove.Chat.Frames.{IsFrame, RawFrame, parse_ws_frame, parse_ws_frame_iff, text}
use agentgrove.Chat.Reading.{assistant_text, is_prompt_pending, token_text}
use agentgrove.Chat.Stream.{apply_control, apply_ws_frame, push_event}
use agentgrove.Chat.Stream.Window.{append_all, append_all-window}
use agentgrove.Chat.Stream.Bounds.{IsCapped, apply_ws_frame-IsCapped, ids}
use agentgrove.Chat.Stream.Turns.{IsUntouched, apply_control-settles, apply_ws_frame-IsUntouched}
use agentgrove.Chat.Session.{Session, ok, reconcile_view}
use agentgrove.Chat.Session.Reconcile.{DistinctIds, InOrder, reconcile_view-DistinctIds}
use agentgrove.Chat.Session.Sending.{placeholder, send_finish, temp_id}
use agentgrove.Chat.Session.Sending.Optimistic.{begun, send_round_trip}
use agentgrove.Chat.Session.Link.{
  Link, connects, drops, fresh_link, moves, on_close, on_connect_timer, stays,
}
use agentgrove.Chat.Session.Link.Invariant.{IsLink}
use agentgrove.Chat.Session.Link.Life.{LinkReach-IsLink, step_closed}
use agentgrove.Chat.Session.Batching.{Feed, enqueue, flush}
use agentgrove.Chat.Session.Batching.Order.{flush-enqueue}

abbrev prompt : Str → ℕ → Prompt
prompt id seq = record {
  id = id;
  seq = ℤ.pos seq;
  content = codes "hello";
  events = [];
  touched_paths = [];
  created_at = [];
}

abbrev p_a : Prompt
p_a = prompt (codes "a") 0

abbrev p_b : Prompt
p_b = prompt (codes "b") 1

abbrev store_of : List Prompt → ChatStore
store_of ps = record fresh_chat_store { prompts = ps }

abbrev view_of : List Prompt → ChatView
view_of ps = record {
  id = codes "c";
  project_id = codes "p";
  worktree_id = none;
  title = [];
  provider = [];
  model = [];
  effort = none;
  created_at = [];
  session_id = none;
  prompts = ps;
  prompts_total = 2;
  prompts_window = 50;
  events_per_prompt = 200;
}

abbrev session_of : List Prompt → Session
session_of ps = record { store = store_of ps; error_message = none }

abbrev hello : WsFrame
hello = record { prompt_id = codes "a"; event = token (codes "hel") }

abbrev world : WsFrame
world = record { prompt_id = codes "a"; event = token (codes "lo") }

abbrev finished : WsFrame
finished = record { prompt_id = codes "a"; event = done none Json.null }

abbrev idle_feed : Feed
idle_feed = record { store = store_of (p_a ∷ []); pending = []; armed = false }

flush-enqueue_example :
    (flush (foldl enqueue idle_feed (hello ∷ world ∷ finished ∷ []))).store
    ≡ foldl apply_ws_frame (store_of (p_a ∷ [])) (hello ∷ world ∷ finished ∷ [])
flush-enqueue_example = flush-enqueue (hello ∷ world ∷ finished ∷ []) idle_feed tt

abbrev three_sessions : List AgentEvent
three_sessions =
    session_start (codes "1") ∷ session_start (codes "2") ∷ session_start (codes "3") ∷ []

append_all-window_example :
    append_all 2 [] three_sessions ≡ truncated 1 ∷ session_start (codes "3") ∷ []
append_all-window_example = append_all-window 0 three_sessions (refl, (refl, (refl, tt)))

apply_ws_frame-IsCapped_example :
    All IsCapped (apply_ws_frame (store_of (p_a ∷ [])) finished).prompts
    × (ids (apply_ws_frame (store_of (p_a ∷ [])) finished).prompts ≡ codes "a" ∷ [])
apply_ws_frame-IsCapped_example =
    apply_ws_frame-IsCapped (store_of (p_a ∷ [])) finished (omega arith, tt)

apply_control-settles_example :
    (find
        (has_id (codes "a"))
        (apply_control finished.event (codes "a") (store_of (p_a ∷ []))).prompts
      ≡ some (push_event finished.event p_a))
    × (is_prompt_pending
          (push_event finished.event p_a)
          (apply_control finished.event (codes "a") (store_of (p_a ∷ []))).live_tokens
          (apply_control finished.event (codes "a") (store_of (p_a ∷ []))).live_thinking
          true
        ≡ false)
    × (assistant_text
          (push_event finished.event p_a)
          (apply_control finished.event (codes "a") (store_of (p_a ∷ []))).live_tokens
        ≡ token_text (push_event finished.event p_a).events)
unfolding ◌===◌
apply_control-settles_example =
    apply_control-settles finished.event (codes "a") (store_of (p_a ∷ [])) {p = p_a} refl refl

a_not_b : ◌≢◌ {A = Str} (codes "b") (codes "a")
a_not_b e = absurd (omega (arith, some_inj (ap head? e)))

b_not_a : ◌≢◌ {A = Str} (codes "a") (codes "b")
b_not_a e = absurd (omega (arith, some_inj (ap head? e)))

apply_ws_frame-IsUntouched_example :
    IsUntouched
      (codes "b")
      (store_of (p_a ∷ p_b ∷ []))
      (apply_ws_frame (store_of (p_a ∷ p_b ∷ [])) hello)
apply_ws_frame-IsUntouched_example =
    apply_ws_frame-IsUntouched (codes "b") (store_of (p_a ∷ p_b ∷ [])) hello a_not_b

-- A parser that knows one text.
abbrev frame_json : Json
frame_json = Json.obj (
    Fields.field (codes "prompt_id") (Json.str (codes "a"))
      (Fields.field (codes "event") (Json.obj Fields.end) Fields.end))

abbrev parse_one : Str → Option Json
parse_one raw = if truthy raw then some frame_json else none

abbrev raw_frame : RawFrame
raw_frame = record { prompt_id = Json.str (codes "a"); event = Json.obj Fields.end }

raw_frame_is : IsFrame parse_one (text (codes "x")) raw_frame
unfolding member ◌===◌
raw_frame_is = record {
  raw = codes "x";
  is_text = refl;
  parsed = frame_json;
  parses = refl;
  prompt_id = refl;
  event = refl;
  has_prompt_id = refl;
  has_event = refl;
  not_hello = refl;
}

a_b-InOrder : InOrder (p_a ∷ p_b ∷ [])
a_b-InOrder = (p_a, p_b, refl, refl, refl)

reconcile_view-DistinctIds_example :
    DistinctIds (reconcile_view (view_of (p_a ∷ p_b ∷ [])) (store_of (p_a ∷ []))).prompts
reconcile_view-DistinctIds_example =
    reconcile_view-DistinctIds (view_of (p_a ∷ p_b ∷ [])) (store_of (p_a ∷ [])) a_b-InOrder
      ((b_not_a, tt), (tt, tt)) (tt, tt)

abbrev page_of : List Prompt → PromptsBackfill
page_of ps = record { prompts = ps; at_start = true }

-- Another message was sent while the server worked on the first.
abbrev sent_twice : Session
sent_twice =
    session_of
      (p_a ∷ placeholder (codes "x") (codes "hi") [] ∷ placeholder (codes "y") (codes "ho") [] ∷ [])

send_round_trip_example :
    ((begun (codes "c") (codes "hi") (codes "x") [] (session_of (p_a ∷ []))).store.prompts
      ≡ p_a ∷ placeholder (codes "x") (codes "hi") [] ∷ [])
    × ((send_finish (temp_id (codes "x")) (ok (dispatched p_b)) sent_twice).0.store.prompts
        ≡ p_a ∷ p_b ∷ placeholder (codes "y") (codes "ho") [] ∷ [])
    × ((send_finish
          (temp_id (codes "x"))
          (ok (dispatched p_b))
          (begun (codes "c") (codes "hi") (codes "x") [] (session_of (p_a ∷ [])))).0.store.prompts
        ≡ p_a ∷ p_b ∷ [])
unfolding trim ◌===◌
send_round_trip_example =
    send_round_trip (codes "c") (codes "hi") (codes "x") [] (ok (dispatched p_b))
      (session_of (p_a ∷ [])) sent_twice (p_a ∷ []) (placeholder (codes "y") (codes "ho") [] ∷ [])
      refl (omega arith) refl refl refl

abbrev keep_raw : RawFrame → WsFrame
keep_raw f = hello

LinkReach-IsLink_example : IsLink (on_connect_timer (ok tt) (fresh_link (store_of (p_a ∷ []))))
LinkReach-IsLink_example =
    LinkReach-IsLink parse_one keep_raw (store_of (p_a ∷ [])) (moves stays (connects (ok tt) refl))

abbrev closed_link : Link
closed_link = record (fresh_link (store_of (p_a ∷ []))) {
  closed = true;
  has_socket = true;
  connect_armed = false;
}

closed_link-IsLink : IsLink closed_link
closed_link-IsLink = record {
  delay = (omega arith, omega arith);
  timer = tt;
  single = omega arith;
  quiet = λ _. (refl, refl, refl, refl);
}

step_closed_example :
    ((on_close closed_link).feed ≡ closed_link.feed) × ((on_close closed_link).closed ≡ true)
step_closed_example = step_closed parse_one keep_raw (drops refl) closed_link-IsLink refl

parse_ws_frame_iff_example :
    (parse_ws_frame parse_one (text (codes "x")) ≡ some raw_frame)
    ↔ IsFrame parse_one (text (codes "x")) raw_frame
parse_ws_frame_iff_example = parse_ws_frame_iff parse_one (text (codes "x")) raw_frame
