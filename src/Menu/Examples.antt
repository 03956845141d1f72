-- ===== src/Menu/Examples.antt =====
-- The theorems about the drop-down menu at concrete inputs.
use agentgrove.Base.{List, [], arith, codes, false, none, refl, some, true, ◌===◌, ◌∷◌, ◌≡◌}
use agentgrove.Menu.{SelectMenu, SelectOption, on_menu_key, on_trigger_key}
use agentgrove.Menu.Range.{IsInRange, IsSound, on_menu_key-IsInRange}

abbrev option_a : SelectOption
option_a = record { value = codes "a"; label = codes "A"; hint = none }

abbrev options : List SelectOption
options = option_a ∷ record option_a { value = codes "b" } ∷ []

-- An open menu with its last row marked.
abbrev at_end : SelectMenu
at_end = record { is_open = true; active_idx = some 1 }

on_menu_key-IsInRange_example :
    IsInRange options (on_trigger_key (codes "ArrowDown") options (codes "a") false at_end)
    × IsSound options at_end (on_menu_key (codes "ArrowDown") options at_end)
on_menu_key-IsInRange_example =
    on_menu_key-IsInRange (codes "ArrowDown") options (codes "a") false at_end (omega arith)
      (λ h. omega arith)

-- The last row stays marked.
stays_at_end : on_menu_key (codes "ArrowDown") options at_end ≡ (at_end, none)
unfolding on_menu_key ◌===◌
stays_at_end = refl
