-- ===== src/ToolRail.antt =====
-- The tool activity of a prompt: the pairing of calls with their results, and the preview of a
-- call (apps/web/src/features/chat/ToolRail.tsx). `JSON.stringify` and `Object.values` are
-- arguments.
pub mod Pairs
pub mod Matched
pub mod Preview
mod Examples
use agentgrove.Base.{
  Dict, List, Option, Str, [], codes, decimal, if◌then◌else◌, insert, length, lookup, none, some,
  suc, truthy, zero, ℕ, ◌++◌, ◌∷◌,
}
use agentgrove.Chat.Types.{AgentEvent, error, tool_call, tool_result, truncated}

pub record ToolEntry : Type 0 where
  pub call : Option AgentEvent
  pub result : Option AgentEvent
  pub key : Str

pub record Pairing : Type 0 where
  pub entries : List ToolEntry
  pub by_id : Dict ℕ
  pub errors : List AgentEvent
  pub cuts : List AgentEvent

abbrev pub no_pairing : Pairing
no_pairing = record { entries = []; by_id = []; errors = []; cuts = [] }

abbrev pub call_key : Option Str → ℕ → Str
call_key none i = codes "idx-" ++ decimal i
call_key (some id) i = id

-- `entries[idx]!.result = ev`.
abbrev pub set_result : AgentEvent → ℕ → List ToolEntry → List ToolEntry
set_result ev i [] = []
set_result ev zero (e ∷ es) = record e { result = some ev } ∷ es
set_result ev (suc i) (e ∷ es) = e ∷ set_result ev i es

abbrev pub place_result : AgentEvent → ℕ → Option ℕ → Pairing → Pairing
place_result ev i (some j) p = record p { entries = set_result ev j p.entries }
place_result ev i none p = record p {
  entries =
      p.entries
      ++ record { call = none; result = some ev; key = codes "result-" ++ decimal i } ∷ [];
}

abbrev pub call_of : Option Str → Dict ℕ → Option ℕ
call_of none m = none
call_of (some id) m = if truthy id then lookup id m else none

-- One turn of the loop.
abbrev pub pair_event : ℕ → AgentEvent → Pairing → Pairing
pair_event i (tool_call name args id) p = record p {
  by_id = insert (call_key id i) (length p.entries) p.by_id;
  entries =
      p.entries
      ++ record { call = some (tool_call name args id); result = none; key = call_key id i } ∷ [];
}
pair_event i (tool_result name result id) p =
    place_result (tool_result name result id) i (call_of id p.by_id) p
pair_event i (error message) p = record p { errors = p.errors ++ error message ∷ [] }
pair_event i (truncated dropped) p = record p { cuts = p.cuts ++ truncated dropped ∷ [] }
pair_event i _ p = p

unfoldable pub pair_from : ℕ → List AgentEvent → Pairing → Pairing
pair_from i [] p = p
pair_from i (ev ∷ evs) p = pair_from (suc i) evs (pair_event i ev p)

unfoldable pub pair_tools : List AgentEvent → Pairing
unfolding pair_from
pair_tools evs = pair_from 0 evs no_pairing
