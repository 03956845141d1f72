-- ===== src/Routes/Examples.antt =====
-- The theorems about routes at concrete inputs.
use agentgrove.Base.{[], arith, codes, none, refl, some, ◌∷◌, ◌≡◌}
use agentgrove.Store.Types.{AppState, initial_state}
use agentgrove.Routes.{guard_target, scope_path, target_of}
use agentgrove.Routes.Paths.{target_of-scope_path}
use agentgrove.Routes.Guard.{IsKnown, guard_target-IsKnown}

target_of-scope_path_example :
    (target_of (scope_path (codes "x") (some (codes "y"))) ≡ (some (codes "x"), some (codes "y")))
    × (target_of (scope_path (codes "x") none) ≡ (some (codes "x"), none))
target_of-scope_path_example =
    target_of-scope_path (codes "x") (codes "y") refl refl (λ e. absurd (omega (arith, e)), tt)
      (λ e. absurd (omega (arith, e)), tt)

abbrev one_project : AppState
one_project = record initial_state {
  projects = record { id = codes "x"; name = codes "X"; root = codes "/x" } ∷ [];
}

guard_target-IsKnown_example :
    IsKnown (guard_target (some (codes "gone"), none) one_project).0.0 one_project
guard_target-IsKnown_example = guard_target-IsKnown (codes "gone") none one_project refl refl
