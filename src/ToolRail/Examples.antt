-- ===== src/ToolRail/Examples.antt =====
-- The theorems about the tool rail at concrete inputs.
use agentgrove.Base.{All, List, [], codes, filter, none, some, ◌∷◌, ◌≡◌}
use agentgrove.Base.Json.{null}
use agentgrove.Chat.Types.{AgentEvent, error, tool_call, tool_result}
use agentgrove.ToolRail.{pair_tools}
use agentgrove.ToolRail.Pairs.{calls, is_call, is_cut, is_error}
use agentgrove.ToolRail.Matched.{IsPaired, pair_tools-IsRail}

-- Two calls, one of them answered, a result of no call, and an error.
abbrev evs : List AgentEvent
evs =
    tool_call (codes "Bash") null (some (codes "a"))
    ∷ tool_call (codes "Read") null none
    ∷ tool_result (codes "Bash") null (some (codes "a"))
    ∷ tool_result (codes "Glob") null (some (codes "b"))
    ∷ error (codes "x")
    ∷ []

pair_tools-IsRail_example :
    (calls (pair_tools evs).entries ≡ filter is_call evs)
    × All IsPaired (pair_tools evs).entries
    × ((pair_tools evs).errors ≡ filter is_error evs)
    × ((pair_tools evs).cuts ≡ filter is_cut evs)
pair_tools-IsRail_example = pair_tools-IsRail evs
