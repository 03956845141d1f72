-- ===== src/Memory/Monitor.antt =====
-- The monitor of the memory: its ring of samples and its tick
-- (apps/web/src/core/lib/memMonitor.ts). A sample and the time are arguments of a tick; what the
-- browser measures is not modelled.
pub mod Spaced
use agentgrove.Base.{
  Bool, List, Option, Str, [], false, get_last?, head?, if◌then◌else◌, leb, length, ltb, map, none,
  some, tail, true, ℕ, ◌&&◌, ◌++◌, ◌+◌, ◌-◌, ◌==◌, ◌||◌, ◌∷◌,
}
use agentgrove.Base.Int.{negsuc, pos, ℤ}

abbrev pub report_ms : ℕ
report_ms = 300000

abbrev pub ring_size : ℕ
ring_size = 8

pub record Sample : Type 0 where
  pub t : ℕ
  pub heap_mb : ℤ
  pub heap_limit_mb : ℤ
  pub dom : ℕ
  pub ws : ℕ
  pub tab_bytes : ℤ
  pub listeners : ℕ
  pub visible : Bool
  pub top : Str
  pub top_bytes : ℕ

-- `ring` and `lastReport`.
pub record Monitor : Type 0 where
  pub ring : List Sample
  pub last_report : ℕ

-- The heaps that were measured.
abbrev pub heaps_of : List Sample → List ℕ
heaps_of [] = []
heaps_of (s ∷ ss) = elim s.heap_mb [ pos n ↦ n ∷ heaps_of ss | negsuc n ↦ heaps_of ss ]

abbrev pub doms_of : List Sample → List ℕ
doms_of ring = map (λ (s : Sample). s.dom) ring

abbrev pub climbs : List ℕ → Bool
climbs [] = true
climbs (x ∷ []) = true
climbs (x ∷ y ∷ ys) = leb x y && climbs (y ∷ ys)

abbrev pub first_or_zero : Option ℕ → ℕ
first_or_zero none = 0
first_or_zero (some n) = n

-- `xs[7] - xs[0] >= least`, of a list of eight.
abbrev pub rises : ℕ → List ℕ → Bool
rises least xs = leb (first_or_zero (head? xs) + least) (first_or_zero (get_last? xs))

unfoldable pub sustained_climb : List Sample → Bool
sustained_climb ring =
    if ltb (length ring) ring_size
    then false
    else (let heaps = heaps_of ring in
        let doms = doms_of ring in
        (length heaps == ring_size && (climbs heaps && rises 20 heaps))
        || (climbs doms && rises 500 doms))

pub data Report : Type 0 where
  growth : Sample → Report
  heartbeat : Sample → Report

abbrev pub push_sample : Sample → List Sample → List Sample
push_sample s ring =
    let pushed = ring ++ s ∷ [] in if ltb ring_size (length pushed) then tail pushed else pushed

-- What the tick reports, where it reports.
unfoldable pub tick : ℕ → Sample → Monitor → Monitor × Option Report
unfolding sustained_climb
tick now s m =
    let ring = push_sample s m.ring in
    if sustained_climb ring
    then (record { ring = []; last_report = now }, some (growth s))
    else (if leb report_ms (now - m.last_report)
        then (record { ring = ring; last_report = now }, some (heartbeat s))
        else (record { ring = ring; last_report = m.last_report }, none))
