-- ===== src/Store/Keys.antt =====
-- Scope keys: `makeKey`, its readers, and the split in `writeScopeLayout`
-- (apps/web/src/core/stores/app.ts).
pub mod RoundTrip
use agentgrove.Base.{
  Bool, List, Option, Str, [], codes, false, if◌then◌else◌, lookup, none, some, true, truthy, ◌&&◌,
  ◌++◌, ◌==◌, ◌∷◌,
}
use agentgrove.Store.Types.{AppState}

-- `w ?? ""`.
abbrev pub text_or_empty : Option Str → Str
text_or_empty none = []
text_or_empty (some t) = t

abbrev pub is_set : Option Str → Bool
is_set none = false
is_set (some s) = truthy s

unfoldable pub make_key : Str → Option Str → Str
make_key pid none = pid
make_key pid (some wid) = if truthy wid then pid ++ (codes "::" ++ wid) else pid

-- `m[k] ?? null` in a record of optional ids.
abbrev pub or_null : Option (Option Str) → Option Str
or_null none = none
or_null (some v) = v

unfoldable pub current_worktree_id : AppState → Option Str
current_worktree_id st = elim st.selected_project_id [
  | none ↦ none
  | some pid ↦ if truthy pid then or_null (lookup pid st.selected_worktree_by_project) else none
]

unfoldable pub current_scope_key : AppState → Option Str
current_scope_key st = elim st.selected_project_id [
  | none ↦ none
  | some pid ↦
      if truthy pid
      then some (make_key pid (or_null (lookup pid st.selected_worktree_by_project)))
      else none
]

-- `key.split("::")`.
unfoldable pub split_from : Str → Str → List Str
split_from cur [] = cur ∷ []
split_from cur (c ∷ []) = (cur ++ c ∷ []) ∷ []
split_from cur (c ∷ d ∷ s) = elim (c == b':' && d == b':') [
  | true ↦ cur ∷ split_from [] s
  | false ↦ split_from (cur ++ c ∷ []) (d ∷ s)
]

unfoldable pub split_key : Str → List Str
unfolding split_from
split_key key = split_from [] key

-- `const [projectId, worktreeId = ""] = …`.
abbrev pub key_parts : List Str → Str × Str
key_parts [] = ([], [])
key_parts (p ∷ []) = (p, [])
key_parts (p ∷ w ∷ rest) = (p, w)

unfoldable pub scope_of_key : Str → Str × Str
unfolding split_key
scope_of_key key = key_parts (split_key key)
