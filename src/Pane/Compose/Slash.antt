-- ===== src/Pane/Compose/Slash.antt =====
-- The menu of the slash commands (apps/web/src/shells/desktop/panes/ChatPane.tsx). `toLowerCase` is
-- an argument.
pub mod Applied
use agentgrove.Base.{
  Bool, List, Option, Str, [], any, codes, drop, false, filter, get_elem?, if◌then◌else◌, includes,
  is_space, map, none, not, some, suc, take, true, truthy, zero, ℕ, ◌&&◌, ◌++◌, ◌==◌, ◌||◌, ◌∷◌,
}

pub record SlashSuggestion : Type 0 where
  pub key : Str
  pub label : Str
  pub hint : Str
  pub inserted : Str
  pub detail : Str

pub record ProviderCommand : Type 0 where
  pub name : Str
  pub description : Str

pub record PromptTemplate : Type 0 where
  pub id : Str
  pub name : Str
  pub body : Str

-- `body.split("\n")[0]`.
abbrev pub first_line : Str → Str
first_line [] = []
first_line (c ∷ s) = let rest = first_line s in if c == 10 then [] else c ∷ rest

abbrev pub of_command : ProviderCommand → SlashSuggestion
of_command c = record {
  key = codes "cmd:" ++ c.name;
  label = codes "/" ++ c.name;
  hint = codes "command";
  inserted = codes "/" ++ c.name;
  detail = c.description;
}

abbrev pub of_prompt : PromptTemplate → SlashSuggestion
of_prompt p = record {
  key = codes "prompt:" ++ p.id;
  label = p.name;
  hint = codes "prompt";
  inserted = p.body;
  detail = first_line p.body;
}

abbrev pub mentions : (Str → Str) → Str → SlashSuggestion → Bool
mentions lower_case needle s =
    includes (lower_case s.label) needle || includes (lower_case s.detail) needle

unfoldable pub suggestions :
    (Str → Str) → List ProviderCommand → List PromptTemplate → Option Str → List SlashSuggestion
suggestions lower_case cmds prompts none = []
suggestions lower_case cmds prompts (some q) =
    let offered = map of_command cmds ++ map of_prompt prompts in
    let needle = lower_case q in
    if truthy needle then take 12 (filter (mentions lower_case needle) offered) else take 12 offered

-- `s.lastIndexOf("/")`.
abbrev pub last_slash : Str → Option ℕ
last_slash [] = none
last_slash (c ∷ s) = elim (last_slash s) [
  | some i ↦ some (suc i)
  | none ↦ if c == b'/' then some 0 else none
]

-- The input, `slashQuery` and `slashIdx`.
pub record SlashMenu : Type 0 where
  pub input : Str
  pub query : Option Str
  pub idx : ℕ

abbrev pub is_break : Option ℕ → Bool
is_break none = false
is_break (some c) = c == 10 || c == 32

-- The slash at this place is the first character, or a line break or a space stands before it.
abbrev pub at_line_start : Str → ℕ → Bool
at_line_start s zero = true
at_line_start s (suc i) = is_break (get_elem? s i)

abbrev pub query_at : Str → Option ℕ → Option Str
query_at md none = none
query_at md (some i) =
    let token = drop (suc i) md in
    if at_line_start md i && not (any is_space token) then some token else none

unfoldable pub update_slash_state : Str → SlashMenu → SlashMenu
update_slash_state md m = elim (query_at md (last_slash md)) [
  | none ↦ record m { query = none }
  | some token ↦ record m { query = some token; idx = 0 }
]

abbrev pub replace_at : SlashSuggestion → Option ℕ → SlashMenu → SlashMenu
replace_at s none m = m
replace_at s (some i) m =
    if at_line_start m.input i
    then record { input = take i m.input ++ s.inserted; query = none; idx = 0 }
    else m

unfoldable pub apply_slash : SlashSuggestion → SlashMenu → SlashMenu
apply_slash s m = replace_at s (last_slash m.input) m
