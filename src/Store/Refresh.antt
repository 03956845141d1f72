-- ===== src/Store/Refresh.antt =====
-- The lists of the server: `refreshProjects`, `refreshWorktreesForProject` and `findTicketWorktree`
-- of apps/web/src/core/stores/app.ts. The answers of the server are arguments, and a failed one
-- carries the message of its error.
pub mod Mirror
use agentgrove.Base.{
  Bool, Dict, List, Option, Str, [], codes, find, foldl, if◌then◌else◌, insert, none, not, some,
  starts_with, ◌&&◌, ◌++◌, ◌∷◌,
}
use agentgrove.Store.Types.{AppState, Project, Worktree}
use agentgrove.Store.Keys.{is_set}
use agentgrove.Store.Actions.{select_project, select_worktree}
use agentgrove.Chat.Session.{Answer, failed, ok}

-- `setState("worktrees", pid, list)`.
abbrev pub put_worktrees : Str → List Worktree → AppState → AppState
put_worktrees pid list st = record st { worktrees = insert pid list st.worktrees }

unfoldable pub refresh_worktrees_for_project : Str → Answer (List Worktree) → AppState → AppState
refresh_worktrees_for_project pid (ok list) st = put_worktrees pid list st
refresh_worktrees_for_project pid (failed message) st = record st { load_error = some message }

-- One of the calls that run side by side; a failed one is skipped.
abbrev pub put_answer : Str → AppState → Answer (List Worktree) → AppState
put_answer pid st (ok list) = put_worktrees pid list st
put_answer pid st (failed message) = st

abbrev pub fetch_worktrees : (Str → Answer (List Worktree)) → AppState → Project → AppState
fetch_worktrees answers st p = put_answer p.id st (answers p.id)

abbrev pub select_first : List Project → AppState → AppState
select_first [] st = st
select_first (p ∷ ps) st = if is_set st.selected_project_id then st else select_project p.id st

unfoldable pub refresh_projects :
    Answer (List Project) → (Str → Answer (List Worktree)) → AppState → AppState
refresh_projects (failed message) answers st = record st { load_error = some message }
refresh_projects (ok list) answers st =
    select_first list (foldl (fetch_worktrees answers) (record st { projects = list }) list)

abbrev pub is_live : Str → Worktree → Bool
is_live prefix w = not (is_set w.removed_at) && starts_with w.branch prefix

abbrev pub or_next : Option Worktree → Option Worktree → Option Worktree
or_next (some w) next = some w
or_next none next = next

-- The loop over the lists of all projects.
unfoldable pub find_live : Str → Dict (List Worktree) → Option Worktree
find_live prefix [] = none
find_live prefix ((pid, list) ∷ m) = or_next (find (is_live prefix) list) (find_live prefix m)

unfoldable pub find_ticket_worktree : Str → AppState → Option Worktree
unfolding find_live
find_ticket_worktree ticket st = find_live (codes "ticket/" ++ (ticket ++ codes "-")) st.worktrees

-- `focusNewWorktree`.
unfoldable pub focus_new_worktree : Worktree → Answer (List Worktree) → AppState → AppState
unfolding refresh_worktrees_for_project
focus_new_worktree w answer st =
    select_worktree w.project_id (some w.id) (refresh_worktrees_for_project w.project_id answer st)
