-- ===== src/Chat/Stream.antt =====
-- How a frame is folded into the timeline: `appendEventBounded` and `applyWsFrame` of
-- apps/web/src/core/chat/chatStream.ts. A function that mutates its argument returns the new value.
pub mod Window
pub mod Bounds
pub mod Turns
use agentgrove.Base.{
  Bool, Dict, List, Option, Str, [], any, erase_idx, false, if◌then◌else◌, insert, length, lookup,
  ltb, none, remove, some, true, update_first, ℕ, ◌++◌, ◌+◌, ◌∷◌,
}
use agentgrove.Chat.Types.{
  AgentEvent, ChatStore, Prompt, WsFrame, done, error, has_id, max_events_in_view, retry, thinking,
  token, truncated,
}

-- Makes room for one event: the oldest real event goes, and a sentinel counts what went.
unfoldable pub evict : List AgentEvent → List AgentEvent
evict [] = truncated 1 ∷ []
evict (truncated dropped ∷ rest) = erase_idx (truncated (dropped + 1) ∷ rest) 1
evict (first ∷ rest) = erase_idx (truncated 1 ∷ rest) 1

unfoldable pub append_event_bounded : List AgentEvent → AgentEvent → ℕ → List AgentEvent
unfolding evict
append_event_bounded events ev max =
    if ltb (length events) max then events ++ ev ∷ [] else evict events ++ ev ∷ []

-- `m[k] ?? ""`.
abbrev pub text_or_empty : Option Str → Str
text_or_empty none = []
text_or_empty (some t) = t

-- `m[k] = (m[k] ?? "") + t`.
unfoldable pub append_live : Str → Str → Dict Str → Dict Str
append_live k t m = insert k (text_or_empty (lookup k m) ++ t) m

-- A `retry` empties the prompt, down to the event itself.
abbrev on_retry : AgentEvent → List AgentEvent → List AgentEvent
on_retry (retry message) events = retry message ∷ []
on_retry _ events = events

unfoldable pub push_event : AgentEvent → Prompt → Prompt
push_event ev p = record p {
  events = on_retry ev (append_event_bounded p.events ev max_events_in_view);
}

-- The events after which the live buffers of the prompt are dropped.
abbrev pub ends_live : AgentEvent → Bool
ends_live (done result cost) = true
ends_live (error message) = true
ends_live (retry message) = true
ends_live _ = false

unfoldable pub drop_live : Str → ChatStore → ChatStore
drop_live pid s = record s {
  live_tokens = remove pid s.live_tokens;
  live_thinking = remove pid s.live_thinking;
}

-- The frames other than `token` and `thinking`.
unfoldable pub apply_control : AgentEvent → Str → ChatStore → ChatStore
unfolding push_event drop_live
apply_control ev pid s =
    if any (has_id pid) s.prompts
    then (let s' = record s { prompts = update_first (has_id pid) (push_event ev) s.prompts } in
        if ends_live ev then drop_live pid s' else s')
    else s

unfoldable pub apply_event : AgentEvent → Str → ChatStore → ChatStore
unfolding apply_control append_live
apply_event (token text) pid s = record s { live_tokens = append_live pid text s.live_tokens }
apply_event (thinking text) pid s = record s {
  live_thinking = append_live pid text s.live_thinking;
}
apply_event ev pid s = apply_control ev pid s

unfoldable pub apply_ws_frame : ChatStore → WsFrame → ChatStore
unfolding apply_event
apply_ws_frame s frame = apply_event frame.event frame.prompt_id s
