-- ===== src/CrossTabs/Examples.antt =====
-- The theorems about the election at concrete inputs.
use agentgrove.Base.{
  List, Str, [], ap, arith, codes, foldl, head?, inl, inr, refl, some_inj, true, ◌∷◌, ◌≡◌, ◌≢◌,
}
use agentgrove.CrossTabs.{Event, heart, is_leader, run_event, ticks}
use agentgrove.CrossTabs.Tenure.{is_leader-run_event}

b_not_a : ◌≢◌ {A = Str} (codes "b") (codes "a")
b_not_a e = absurd (omega (arith, some_inj (ap head? e)))

abbrev two_ticks : List Event
two_ticks = ticks (codes "a") 1000 ∷ ticks (codes "b") 3000 ∷ []

is_leader-run_event_example :
    is_leader (codes "a") (foldl run_event (heart (codes "a") 0) two_ticks) ≡ true
is_leader-run_event_example =
    is_leader-run_event (codes "a") 0 two_ticks (inl (refl, inr (b_not_a, omega arith, tt)))
