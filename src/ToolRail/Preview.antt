-- ===== src/ToolRail/Preview.antt =====
-- The preview of a tool call: a command, a path, a pattern or a description
-- (apps/web/src/features/chat/ToolRail.tsx).
use agentgrove.Base.{
  Bool, List, Option, Str, [], any, codes, decimal, false, if◌then◌else◌, length, ltb, none, some,
  suc, take, trim, true, truthy, ℕ, ◌++◌, ◌===◌, ◌∷◌,
}
use agentgrove.Base.Json.{Items, Json, arr, cons, get_member, nil, obj, str}

-- A field that is a text and not blank.
abbrev pub shown : Option Json → Option Str
shown (some (str v)) = if truthy (trim v) then some v else none
shown _ = none

unfoldable pub pick_str : List Str → Json → Option Str
pick_str [] args = none
pick_str (k ∷ ks) args = elim (shown (get_member k args)) [
  | some v ↦ some v
  | none ↦ pick_str ks args
]

abbrev pub or_nothing : Option Str → Str
or_nothing none = []
or_nothing (some v) = v

-- `pat && path` tells two texts that are there apart from the rest, since neither is blank.
abbrev pub pattern_and_path : Option Str → Option Str → Str
pattern_and_path (some pat) (some path) = pat ++ (codes " " ++ path)
pattern_and_path (some pat) none = pat
pattern_and_path none path = or_nothing path

abbrev pub count_items : Items → ℕ
count_items nil = 0
count_items (cons x xs) = suc (count_items xs)

abbrev pub todo_count : Option Json → Str
todo_count (some (arr xs)) = decimal (count_items xs) ++ codes " item(s)"
todo_count _ = []

abbrev pub has_fields : Json → Bool
has_fields (arr xs) = true
has_fields (obj fs) = true
has_fields _ = false

abbrev pub is_one_of : List Str → Str → Bool
is_one_of names name = any (λ n. n === name) names

abbrev pub first_shown : List Json → Option Str
first_shown [] = none
first_shown (v ∷ vs) = elim (shown (some v)) [ some s ↦ some s | none ↦ first_shown vs ]

-- The number is the character of the ellipsis.
abbrev pub cut : Str → Str
cut s = if ltb 240 (length s) then take 240 s ++ 8230 ∷ [] else s

module _ (stringify : Json → Str) (values : Json → List Json) where
  unfoldable pub safe_stringify : Json → Str
  safe_stringify (str s) = cut s
  safe_stringify v = cut (stringify v)

  abbrev pub default_preview : Json → Str
  default_preview args = elim (pick_str (codes "description" ∷ []) args) [
    | some desc ↦ desc
    | none ↦ elim (first_shown (values args)) [ some v ↦ v | none ↦ safe_stringify args ]
  ]

  abbrev pub named_preview : Str → Json → Str
  named_preview name args =
      if is_one_of (codes "Bash" ∷ []) name
      then or_nothing (pick_str (codes "command" ∷ codes "cmd" ∷ []) args)
      else (if is_one_of (codes "Read" ∷ codes "Write" ∷ codes "Edit" ∷ []) name
          then or_nothing (pick_str (codes "file_path" ∷ codes "path" ∷ codes "filename" ∷ []) args)
          else (if is_one_of (codes "Glob" ∷ codes "Grep" ∷ codes "Search" ∷ []) name
              then pattern_and_path
                  (pick_str (codes "pattern" ∷ codes "query" ∷ codes "q" ∷ []) args)
                  (pick_str (codes "path" ∷ []) args)
              else (if is_one_of (codes "WebFetch" ∷ codes "WebSearch" ∷ []) name
                  then or_nothing (pick_str (codes "url" ∷ codes "query" ∷ []) args)
                  else (if is_one_of (codes "TodoWrite" ∷ []) name
                      then todo_count (get_member (codes "todos") args)
                      else (if is_one_of (codes "Task" ∷ []) name
                          then or_nothing
                              (pick_str (codes "description" ∷ codes "prompt" ∷ []) args)
                          else default_preview args)))))

  unfoldable pub preview_for_args : Str → Json → Str
  preview_for_args name args = if has_fields args then named_preview name args else []
