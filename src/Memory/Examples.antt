-- ===== src/Memory/Examples.antt =====
-- The theorems about the memory registry and its monitor at concrete inputs.
use agentgrove.Base.{All, [], arith, codes, refl, true, ℕ, ◌∷◌, ◌≡◌}
use agentgrove.Base.Int.{ℤ}
use agentgrove.Memory.{Registry}
use agentgrove.Memory.Monitor.{Monitor, Sample, sustained_climb, tick}
use agentgrove.Memory.Monitor.Spaced.{IsQuiet, is_growth, reports, tick-IsQuiet}

abbrev two_sources : Registry
two_sources = record { labels = []; store = (codes "a", 1) ∷ (codes "b", 2) ∷ [] }

abbrev sample : ℕ → Sample
sample dom = record {
  t = 0;
  heap_mb = ℤ.negsuc 0;
  heap_limit_mb = ℤ.negsuc 0;
  dom = dom;
  ws = 0;
  tab_bytes = ℤ.negsuc 0;
  listeners = 0;
  visible = true;
  top = [];
  top_bytes = 0;
}

-- The ring is full but for one sample, and the number of elements of the page climbs.
abbrev climbing : Monitor
climbing = record {
  ring =
      sample 0 ∷ sample 100 ∷ sample 200 ∷ sample 300 ∷ sample 400 ∷ sample 500 ∷ sample 600 ∷ [];
  last_report = 0;
}

warns : is_growth (tick 1 (sample 700) climbing).1 ≡ true
unfolding tick sustained_climb
warns = refl

tick-IsQuiet_example : All IsQuiet (reports ((2, sample 900) ∷ []) (tick 1 (sample 700) climbing).0)
tick-IsQuiet_example =
    tick-IsQuiet 1 (sample 700) ((2, sample 900) ∷ []) climbing warns (omega arith)
