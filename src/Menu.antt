-- ===== src/Menu.antt =====
-- The drop-down menu of the client, by keyboard and mouse (apps/web/src/ui/Select.tsx). The focus is
-- the browser's; a pick is the result of a handler.
pub mod Range
mod Examples
use agentgrove.Base.{
  Bool, List, Option, Str, codes, false, find_index, get_elem?, if◌then◌else◌, length, min, none,
  not, some, suc, true, zero, ℕ, ◌&&◌, ◌+◌, ◌-◌, ◌===◌, ◌||◌,
}

pub record SelectOption : Type 0 where
  pub value : Str
  pub label : Str
  pub hint : Option Str

-- `none` is the index -1.
pub record SelectMenu : Type 0 where
  pub is_open : Bool
  pub active_idx : Option ℕ

abbrev pub closed_menu : SelectMenu
closed_menu = record { is_open = false; active_idx = none }

abbrev pub idx_or_zero : Option ℕ → ℕ
idx_or_zero none = 0
idx_or_zero (some i) = i

unfoldable pub toggle : List SelectOption → Str → Bool → SelectMenu → SelectMenu
toggle options value disabled m =
    if disabled
    then m
    else (if m.is_open then closed_menu else record {
      is_open = true;
      active_idx =
          some (idx_or_zero (find_index (λ (o : SelectOption). o.value === value) options));
    })

unfoldable pub on_trigger_key : Str → List SelectOption → Str → Bool → SelectMenu → SelectMenu
unfolding toggle
on_trigger_key key options value disabled m =
    if not disabled && (key === codes "Enter" || (key === codes " " || key === codes "ArrowDown"))
    then toggle options value disabled m
    else m

-- `length - 1`, which is -1 of an empty list.
abbrev pub last_idx : ℕ → Option ℕ
last_idx zero = none
last_idx (suc n) = some n

-- `Math.min(length - 1, i + 1)`.
abbrev pub next_idx : ℕ → Option ℕ → Option ℕ
next_idx zero i = none
next_idx (suc n) none = some 0
next_idx (suc n) (some i) = some (min n (i + 1))

-- `Math.max(0, i - 1)`.
abbrev pub prev_idx : Option ℕ → Option ℕ
prev_idx none = some 0
prev_idx (some i) = some (i - 1)

abbrev pub value_at : Option ℕ → List SelectOption → Option Str
value_at none options = none
value_at (some i) options = elim (get_elem? options i) [ none ↦ none | some o ↦ some o.value ]

abbrev pub picked : Option Str → SelectMenu → SelectMenu × Option Str
picked none m = (m, none)
picked (some value) m = (closed_menu, some value)

-- The value that is picked, where one is.
unfoldable pub on_menu_key : Str → List SelectOption → SelectMenu → SelectMenu × Option Str
on_menu_key key options m =
    if not m.is_open
    then (m, none)
    else (if key === codes "Escape"
        then (closed_menu, none)
        else (if key === codes "ArrowDown"
            then (record m { active_idx = next_idx (length options) m.active_idx }, none)
            else (if key === codes "ArrowUp"
                then (record m { active_idx = prev_idx m.active_idx }, none)
                else (if key === codes "Home"
                    then (record m { active_idx = some 0 }, none)
                    else (if key === codes "End"
                        then (record m { active_idx = last_idx (length options) }, none)
                        else (if key === codes "Enter"
                            then picked (value_at m.active_idx options) m
                            else (m, none)))))))
