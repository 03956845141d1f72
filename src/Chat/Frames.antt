-- ===== src/Chat/Frames.antt =====
-- `parseWsFrame` of apps/web/src/core/chat/chatStream.ts. `JSON.parse` is not the program's: it is
-- the argument `parse`, with `none` where it throws. The source casts `event` without a test, so
-- the frame keeps the two members as they were parsed.
use agentgrove.Base.{
  Bool-cases, Option, Option-cases, Str, arith, codes, false, if◌then◌else◌, inl, inr, none, not,
  refl, some, true, ◌&&◌, ◌||◌, ◌↔◌, ◌≡◌,
}
use agentgrove.Base.Json.{Json, get_member, is_object, is_truthy, obj}

pub record RawFrame : Type 0 where
  pub prompt_id : Json
  pub event : Json

-- What a WebSocket message carries: text, or binary data of some kind.
pub data Message : Type 0 where
  text : Str → Message
  binary : Message

abbrev both : Option Json → Option Json → Option RawFrame
both (some p) (some e) =
    if is_truthy (some p) && is_truthy (some e)
    then some (record { prompt_id = p; event = e })
    else none
both _ _ = none

frame_of : Json → Option RawFrame
frame_of msg =
    if is_truthy (get_member (codes "subscribed") msg)
    then none
    else both (get_member (codes "prompt_id") msg) (get_member (codes "event") msg)

read_frame : Json → Option RawFrame
unfolding frame_of
read_frame parsed =
    if not (is_truthy (some parsed)) || not (is_object parsed) then none else frame_of parsed

unfoldable pub parse_ws_frame : (Str → Option Json) → Message → Option RawFrame
unfolding read_frame
parse_ws_frame parse binary = none
parse_ws_frame parse (text raw) = elim (parse raw) [ none ↦ none | some parsed ↦ read_frame parsed ]

-- A message yields a frame exactly when it is text that parses to an object with a truthy
-- `prompt_id`, a truthy `event` and no truthy `subscribed`, and the frame then holds these two.
pub record IsFrame (parse : Str → Option Json) (m : Message) (f : RawFrame) : Type 0 where
  pub raw : Str
  pub is_text : m ≡ text raw
  pub parsed : Json
  pub parses : parse raw ≡ some parsed
  pub prompt_id : get_member (codes "prompt_id") parsed ≡ some f.prompt_id
  pub event : get_member (codes "event") parsed ≡ some f.event
  pub has_prompt_id : is_truthy (some f.prompt_id) ≡ true
  pub has_event : is_truthy (some f.event) ≡ true
  pub not_hello : is_truthy (get_member (codes "subscribed") parsed) ≡ false

both-some :
    (p e : Option Json) {f : RawFrame}
    → both p e ≡ some f
    → (p ≡ some f.prompt_id)
      × (e ≡ some f.event)
      × (is_truthy (some f.prompt_id) ≡ true)
      × (is_truthy (some f.event) ≡ true)
both-some (some p) (some e) h = ground arith
both-some (some p) none h = cc
both-some none e h = cc

frame_of-some :
    (msg : Json) {f : RawFrame}
    → frame_of msg ≡ some f
    → (is_truthy (get_member (codes "subscribed") msg) ≡ false)
      × (both (get_member (codes "prompt_id") msg) (get_member (codes "event") msg) ≡ some f)
unfolding frame_of
frame_of-some msg {f} h = elim (Bool-cases (is_truthy (get_member (codes "subscribed") msg))) [
  | inl e ↦ cc (rw (e, frame_of) at h)
  | inr e ↦ (e, rw e at h)
]

read_frame-some : (msg : Json) {f : RawFrame} → read_frame msg ≡ some f → frame_of msg ≡ some f
unfolding read_frame
read_frame-some msg {f} h = ground arith

-- Whatever the parser, a frame comes only of a text that holds its two members.
parse_ws_frame_sound :
    (parse : Str → Option Json) (m : Message) {f : RawFrame}
    → parse_ws_frame parse m ≡ some f
    → IsFrame parse m f
unfolding parse_ws_frame
parse_ws_frame_sound parse binary h = cc
parse_ws_frame_sound parse (text raw) {f} h = elim (Option-cases (parse raw)) [
  | inl e ↦ cc (rw (e, parse_ws_frame) at h)
  | inr (msg, e) ↦
      let (hello, parts) = frame_of-some msg (read_frame-some msg (rw (e, parse_ws_frame) at h)) in
      let (p, q, tp, tq) = both-some _ _ parts in
      record {
        raw = raw;
        is_text = refl;
        parsed = msg;
        parses = e;
        prompt_id = p;
        event = q;
        has_prompt_id = tp;
        has_event = tq;
        not_hello = hello;
      }
]

read_frame_complete :
    (msg : Json) (f : RawFrame)
    → get_member (codes "prompt_id") msg ≡ some f.prompt_id
    → get_member (codes "event") msg ≡ some f.event
    → is_truthy (some f.prompt_id) ≡ true
    → is_truthy (some f.event) ≡ true
    → is_truthy (get_member (codes "subscribed") msg) ≡ false
    → read_frame msg ≡ some f
unfolding read_frame frame_of
read_frame_complete (obj fs) f p e tp te hello = rw (hello, p, e, tp, te)
read_frame_complete _ f p e tp te hello = cc

-- And every such text gives its frame.
parse_ws_frame_complete :
    (parse : Str → Option Json) (m : Message) {f : RawFrame}
    → IsFrame parse m f
    → parse_ws_frame parse m ≡ some f
unfolding parse_ws_frame
parse_ws_frame_complete parse m {f} h = rw h.is_text (
    rw (parse_ws_frame, h.parses)
      (read_frame_complete h.parsed f h.prompt_id h.event h.has_prompt_id h.has_event h.not_hello))

-- A message is returned as a frame by parse_ws_frame exactly when it is a frame of the protocol: a
-- text whose JSON is an object with a truthy prompt id and a truthy event, which are the ones
-- returned, and that is no subscription hello.
pub parse_ws_frame_iff :
    (parse : Str → Option Json) (m : Message) (f : RawFrame)
    → (parse_ws_frame parse m ≡ some f) ↔ IsFrame parse m f
parse_ws_frame_iff parse m f =
    (λ h. parse_ws_frame_sound parse m h, λ h. parse_ws_frame_complete parse m h)
