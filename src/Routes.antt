-- ===== src/Routes.antt =====
-- The URL of the workspace (apps/web/src/core/lib/routeSync.ts): `buildUrl`, and the scope that
-- `applyUrlToStore` takes from a path, with its guard, which the source runs when the scope of the
-- path is not the one that it validated last. `encodeURIComponent` is an argument. The
-- history of the browser and the effects that call these are not modelled.
pub mod Paths
pub mod Guard
mod Examples
use agentgrove.Base.{
  Bool, List, Option, Str, [], any, codes, false, if◌then◌else◌, lookup, none, not, some, true,
  truthy, ◌&&◌, ◌++◌, ◌===◌, ◌==◌, ◌||◌, ◌∷◌,
}
use agentgrove.Store.Tabs.{is_nonempty}
use agentgrove.Store.Types.{AppState, Project, Worktree}

abbrev pub worktree_path : Option Str → Str
worktree_path none = []
worktree_path (some wid) = if truthy wid then codes "/w/" ++ wid else []

abbrev pub scope_path : Str → Option Str → Str
scope_path pid wid = codes "/p/" ++ (pid ++ worktree_path wid)

abbrev pub param : Str → Option Str → List Str
param name none = []
param name (some v) = if truthy v then (name ++ v) ∷ [] else []

abbrev pub encoded : (Str → Str) → Option Str → Option Str
encoded encode none = none
encoded encode (some v) = if truthy v then some (encode v) else none

abbrev pub pane_param : Str → List Str
pane_param pane =
    if truthy pane && not (pane === codes "chat") then (codes "pane=" ++ pane) ∷ [] else []

abbrev pub join_params : List Str → Str
join_params [] = []
join_params (p ∷ []) = p
join_params (p ∷ q ∷ ps) = p ++ (codes "&" ++ join_params (q ∷ ps))

abbrev pub with_params : Str → List Str → Str
with_params path [] = path
with_params path (p ∷ ps) = path ++ (codes "?" ++ join_params (p ∷ ps))

unfoldable pub build_url :
    (Str → Str) → Option Str → Option Str → Str → Option Str → Option Str → Str
build_url encode none wid pane chat_id file = codes "/"
build_url encode (some pid) wid pane chat_id file =
    if not (truthy pid)
    then codes "/"
    else with_params (scope_path pid wid) (
        pane_param pane
        ++ (param (codes "chat=") chat_id ++ param (codes "file=") (encoded encode file)))

-- `path.split("/").filter(Boolean)`.
abbrev pub segment : Str → List Str
segment cur = if truthy cur then cur ∷ [] else []

unfoldable pub segments_from : Str → Str → List Str
segments_from cur [] = segment cur
segments_from cur (c ∷ s) = elim (c == b'/') [
  | true ↦ segment cur ++ segments_from [] s
  | false ↦ segments_from (cur ++ c ∷ []) s
]

abbrev pub worktree_in : List Str → Option Str
worktree_in (w ∷ wid ∷ rest) = if w === codes "w" then some wid else none
worktree_in _ = none

abbrev pub target_in : List Str → Option Str × Option Str
target_in (p ∷ pid ∷ rest) = if p === codes "p" then (some pid, worktree_in rest) else (none, none)
target_in _ = (none, none)

unfoldable pub target_of : Str → Option Str × Option Str
unfolding segments_from
target_of path = target_in (segments_from [] path)

unfoldable pub has_project : Str → AppState → Bool
has_project id st = any (λ (p : Project). p.id === id) st.projects

abbrev pub first_project : List Project → Option Str
first_project [] = none
first_project (p ∷ ps) = if truthy p.id then some p.id else none

abbrev pub if_known : Option Str → AppState → Bool
if_known none st = false
if_known (some pid) st = truthy pid && has_project pid st

-- The project to go to instead of one that is gone.
unfoldable pub fallback_project : AppState → Option Str
unfolding has_project
fallback_project st =
    if if_known st.selected_project_id st then st.selected_project_id else first_project st.projects

abbrev pub is_gone : Str → AppState → Bool
is_gone pid st = truthy pid && is_nonempty st.projects && not (has_project pid st)

-- With the flag whether an error is shown.
unfoldable pub guard_project : Option Str × Option Str → AppState → (Option Str × Option Str) × Bool
unfolding has_project fallback_project
guard_project (none, wid) st = ((none, wid), false)
guard_project (some pid, wid) st =
    if is_gone pid st then ((fallback_project st, none), true) else ((some pid, wid), false)

abbrev pub worktrees_of : Option (List Worktree) → List Worktree
worktrees_of none = []
worktrees_of (some ws) = ws

abbrev pub is_gone_worktree : Str → List Worktree → Bool
is_gone_worktree wid ws = is_nonempty ws && not (any (λ (w : Worktree). w.id === wid) ws)

unfoldable pub guard_worktree :
    Option Str × Option Str → AppState → (Option Str × Option Str) × Bool
unfolding has_project
guard_worktree (some pid, some wid) st =
    if truthy pid
      && truthy wid
      && has_project pid st
      && is_gone_worktree wid (worktrees_of (lookup pid st.worktrees))
    then ((some pid, none), true)
    else ((some pid, some wid), false)
guard_worktree target st = (target, false)

unfoldable pub guard_target : Option Str × Option Str → AppState → (Option Str × Option Str) × Bool
unfolding guard_project guard_worktree
guard_target target st =
    let (t, gone) = guard_project target st in
    let (u, gone_worktree) = guard_worktree t st in (u, gone || gone_worktree)
