-- ===== src/Sync/Examples.antt =====
-- The theorems about the link between the instances at concrete inputs.
use agentgrove.Base.{[], codes, false, lookup, none, refl, some, true, ◌===◌, ◌∷◌, ◌≡◌}
use agentgrove.Store.Types.{AppState, Project, Worktree, initial_state}
use agentgrove.Chat.Session.{failed, ok}
use agentgrove.Sync.{
  SyncLink, SyncReach, connect, fires, initial_link, install, moves, on_timer, schedule_reconnect,
  stays,
}
use agentgrove.Sync.Progress.{IsAlive, IsConnected, SyncReach-reconnects}
use agentgrove.Sync.Stuck.{reinstalled, reinstalled-waits_for_nothing}
use agentgrove.Sync.Frames.{handle_frame, worktree_created}
use agentgrove.Sync.Frames.Mirror.{
  Follows-Mirrors, Mirrors, Server, adds, replies_of, starts, tells, with_list,
}

-- The first call of `openWs` throws.
abbrev waiting : SyncLink
waiting = install (failed (codes "x")) initial_link

waiting_pending : waiting.pending ≡ some 1000
unfolding install connect schedule_reconnect
waiting_pending = refl

SyncReach-reconnects_example :
    IsAlive (on_timer (ok tt) waiting)
    × ((m : SyncLink) × SyncReach (on_timer (ok tt) waiting) m × IsConnected m)
SyncReach-reconnects_example =
    SyncReach-reconnects (failed (codes "x")) (moves stays (fires (ok tt) 1000 waiting_pending))

waiting_flag : waiting.timer_set ≡ true
unfolding install connect schedule_reconnect
waiting_flag = refl

waiting_live : waiting.live ≡ []
unfolding install connect schedule_reconnect
waiting_live = refl

reinstalled-waits_for_nothing_example :
    ((reinstalled waiting).socket ≡ none)
    × ((reinstalled waiting).pending ≡ none)
    × ((reinstalled waiting).live ≡ [])
    × ((reinstalled waiting).closed_by_caller ≡ false)
reinstalled-waits_for_nothing_example =
    reinstalled-waits_for_nothing waiting waiting_flag waiting_live

abbrev grove : Project
grove = record { id = codes "p"; name = codes "grove"; root = codes "/" }

abbrev branch : Worktree
branch = record {
  id = codes "w";
  project_id = codes "p";
  branch = codes "ticket/1-a";
  path = codes "/w";
  removed_at = none;
}

abbrev server : Server
server = record { projects = grove ∷ []; lists = λ pid. [] }

abbrev page : AppState
page = record initial_state { projects = grove ∷ []; worktrees = (codes "p", []) ∷ [] }

abbrev grown : Server
grown = with_list (codes "p") (branch ∷ []) server

Follows-Mirrors_example :
    Mirrors grown (handle_frame (replies_of grown) (worktree_created (codes "w") (codes "p")) page)
unfolding lookup ◌===◌
Follows-Mirrors_example =
    Follows-Mirrors (tells grown (starts server page) (adds (codes "w") (codes "p") (branch ∷ [])))
      (refl, (refl, tt))
