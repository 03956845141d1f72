-- ===== src/CrossTabs.antt =====
-- The election of a leader among the tabs of one browser (apps/web/src/core/lib/crossTabs.ts). The
-- tabs share one entry of the local storage; a tick of a tab reads and writes it at once. The time
-- is an argument. A browser without local storage is not modelled: each tab is its leader there.
pub mod Tenure
mod Examples
use agentgrove.Base.{Bool, Str, false, if◌then◌else◌, ltb, true, ℕ, ◌+◌, ◌===◌}

abbrev pub leader_ttl_ms : ℕ
leader_ttl_ms = 2500

-- What `getItem` finds: nothing, a text that `JSON.parse` rejects, or a heartbeat; no tab writes
-- JSON of another shape.
pub data Entry : Type 0 where
  missing : Entry
  garbled : Entry
  heart : (tab_id : Str) (ts : ℕ) → Entry

unfoldable pub is_leader : Str → Entry → Bool
is_leader id missing = false
is_leader id garbled = false
is_leader id (heart tab_id ts) = tab_id === id

-- The entry after a tick, the tab's own flag, and whether it broadcasts a claim.
pub record Claim : Type 0 where
  pub entry : Entry
  pub leader : Bool
  pub announced : Bool

unfoldable pub try_claim : Str → ℕ → Entry → Claim
try_claim id now missing = record { entry = heart id now; leader = true; announced = true }
try_claim id now garbled = record { entry = garbled; leader = true; announced = false }
try_claim id now (heart tab_id ts) =
    if tab_id === id
    then record { entry = heart id now; leader = true; announced = false }
    else (if ltb (ts + leader_ttl_ms) now
        then record { entry = heart id now; leader = true; announced = true }
        else record { entry = heart tab_id ts; leader = false; announced = false })

unfoldable pub on_unload : Str → Entry → Entry
on_unload id missing = missing
on_unload id garbled = garbled
on_unload id (heart tab_id ts) = if tab_id === id then missing else heart tab_id ts

pub data Event : Type 0 where
  ticks : (id : Str) (now : ℕ) → Event
  unloads : (id : Str) → Event

unfoldable pub run_event : Entry → Event → Entry
unfolding try_claim on_unload
run_event e (ticks id now) = (try_claim id now e).entry
run_event e (unloads id) = on_unload id e
