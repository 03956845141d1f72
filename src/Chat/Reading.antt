-- ===== src/Chat/Reading.antt =====
-- What a turn says: the derivations at the end of apps/web/src/core/chat/chatStream.ts.
use agentgrove.Base.{
  Bool, Dict, List, Option, Str, [], false, filter, get_last?, if◌then◌else◌, lookup, none, not,
  some, true, ◌++◌, ◌||◌, ◌∷◌,
}
use agentgrove.Chat.Types.{
  AgentEvent, Prompt, error, is_terminal, thinking, token, tool_call, tool_result, truncated,
}

-- The loops that join the texts of the `token` and of the `thinking` events.
unfoldable pub token_text : List AgentEvent → Str
token_text [] = []
token_text (token text ∷ evs) = text ++ token_text evs
token_text (_ ∷ evs) = token_text evs

unfoldable pub thinking_trace : List AgentEvent → Str
thinking_trace [] = []
thinking_trace (thinking text ∷ evs) = text ++ thinking_trace evs
thinking_trace (_ ∷ evs) = thinking_trace evs

-- The live buffer, where there is one, else the recorded events.
unfoldable pub assistant_text : Prompt → Dict Str → Str
unfolding token_text
assistant_text prompt live_tokens = elim (lookup prompt.id live_tokens) [
  | some live ↦ live
  | none ↦ token_text prompt.events
]

unfoldable pub thinking_text : Prompt → Dict Str → Str
unfolding thinking_trace
thinking_text prompt live_thinking = elim (lookup prompt.id live_thinking) [
  | some live ↦ live
  | none ↦ thinking_trace prompt.events
]

abbrev is_tool_event : AgentEvent → Bool
is_tool_event (tool_call name args id) = true
is_tool_event (tool_result name result id) = true
is_tool_event (error message) = true
is_tool_event (truncated dropped) = true
is_tool_event _ = false

unfoldable pub tool_events : Prompt → List AgentEvent
tool_events prompt = filter is_tool_event prompt.events

unfoldable pub messages : List AgentEvent → List Str
messages [] = []
messages (error message ∷ evs) = message ∷ messages evs
messages (_ ∷ evs) = messages evs

unfoldable pub error_messages : Prompt → List Str
unfolding messages
error_messages prompt = messages prompt.events

abbrev pub is_some {ℓ} : {A : Type ℓ} → Option A → Bool
is_some none = false
is_some (some a) = true

-- A turn that has no event yet, or whose last event is not terminal, is unfinished.
abbrev pub is_unfinished : Option AgentEvent → Bool
is_unfinished none = true
is_unfinished (some last) = not (is_terminal last)

unfoldable pub is_prompt_pending : Prompt → Dict Str → Dict Str → Bool → Bool
is_prompt_pending prompt live_tokens live_thinking is_last =
    if not is_last
    then false
    else (if is_some (lookup prompt.id live_tokens) || is_some (lookup prompt.id live_thinking)
        then true
        else is_unfinished (get_last? prompt.events))
