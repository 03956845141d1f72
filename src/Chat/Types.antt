-- ===== src/Chat/Types.antt =====
-- The wire types of a chat (apps/web/src/core/api/types.ts) and the store of its timeline
-- (apps/web/src/core/chat/chatStream.ts). `args`, `result` and `cost_usd` are only passed on by the
-- client, so they are kept as the values that came over the wire.
use agentgrove.Base.{Bool, Dict, List, Option, Str, [], false, none, true, ℕ, ◌===◌}
use agentgrove.Base.Int.{ℤ}
use agentgrove.Base.Json.{Json}

pub data AgentEvent : Type 0 where
  session_start : (session_id : Str) → AgentEvent
  token : (text : Str) → AgentEvent
  thinking : (text : Str) → AgentEvent
  tool_call : (name : Str) (args : Json) (id : Option Str) → AgentEvent
  tool_result : (name : Str) (result : Json) (id : Option Str) → AgentEvent
  done : (result : Option Str) (cost_usd : Json) → AgentEvent
  error : (message : Str) → AgentEvent
  retry : (message : Str) → AgentEvent
  truncated : (dropped : ℕ) → AgentEvent

pub record Prompt : Type 0 where
  pub id : Str
  pub seq : ℤ
  pub content : Str
  pub events : List AgentEvent
  pub touched_paths : List Str
  pub created_at : Str

pub record ChatView : Type 0 where
  pub id : Str
  pub project_id : Str
  pub worktree_id : Option Str
  pub title : Str
  pub provider : Str
  pub model : Str
  pub effort : Option Str
  pub created_at : Str
  pub session_id : Option Str
  pub prompts : List Prompt
  pub prompts_total : ℕ
  pub prompts_window : ℕ
  pub events_per_prompt : ℕ

pub data SendMessageResponse : Type 0 where
  dispatched : (prompt : Prompt) → SendMessageResponse
  queued : (item_id : Str) → SendMessageResponse

pub record PromptsBackfill : Type 0 where
  pub prompts : List Prompt
  pub at_start : Bool

-- `max_prompts_in_view` and `max_events_in_view` are the caps of ADR-0006.
abbrev pub max_prompts_in_view : ℕ
max_prompts_in_view = 600

abbrev pub max_events_in_view : ℕ
max_events_in_view = 400

pub record ChatStore : Type 0 where
  pub view : Option ChatView
  pub prompts : List Prompt
  pub live_tokens : Dict Str
  pub live_thinking : Dict Str
  pub loading_older : Bool
  pub at_start : Bool

abbrev pub fresh_chat_store : ChatStore
fresh_chat_store = record {
  view = none;
  prompts = [];
  live_tokens = [];
  live_thinking = [];
  loading_older = false;
  at_start = false;
}

pub record WsFrame : Type 0 where
  pub prompt_id : Str
  pub event : AgentEvent

-- `done` and `error` end a turn.
abbrev pub is_terminal : AgentEvent → Bool
is_terminal (done result cost) = true
is_terminal (error message) = true
is_terminal _ = false

-- The test `p.id === id`.
abbrev pub has_id : Str → Prompt → Bool
has_id id p = p.id === id
