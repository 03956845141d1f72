-- ===== src/Sync/Frames.antt =====
-- The frames of the link and what they do to the store: `handleFrame` of
-- apps/web/src/core/lib/crossInstanceSync.ts, composed with the refreshes of
-- apps/web/src/core/stores/app.ts. The listeners of the panes are not part of the store.
pub mod Mirror
use agentgrove.Base.{List, Option, Str, foldl}
use agentgrove.Chat.Session.{Answer}
use agentgrove.Store.Types.{AppState, Project, Worktree}
use agentgrove.Store.Refresh.{refresh_projects, refresh_worktrees_for_project}

pub data SyncFrame : Type 0 where
  project_created : Str → SyncFrame
  project_deleted : Str → SyncFrame
  project_updated : Str → SyncFrame
  worktree_created : (worktree_id project_id : Str) → SyncFrame
  worktree_updated : (worktree_id project_id : Str) → SyncFrame
  worktree_deleted : (worktree_id project_id : Str) → SyncFrame
  worktree_restored : (worktree_id project_id : Str) → SyncFrame
  chat_created : (chat_id project_id : Str) → Option Str → SyncFrame
  chat_updated : (chat_id project_id : Str) → Option Str → SyncFrame
  scratchpad_updated : (project_id updated_at : Str) → SyncFrame
  notes_updated : (updated_at : Str) → SyncFrame

-- What the server answers to the calls of one frame: the list of projects, the lists of worktrees
-- that are fetched with it, and the lists of worktrees that are fetched after it.
pub record Replies : Type 0 where
  pub projects : Answer (List Project)
  pub first : Str → Answer (List Worktree)
  pub later : Str → Answer (List Worktree)

abbrev pub refresh_one : (Str → Answer (List Worktree)) → AppState → Project → AppState
refresh_one answers st p = refresh_worktrees_for_project p.id (answers p.id) st

-- The loop over the projects that are in the store when it starts.
unfoldable pub refresh_each : (Str → Answer (List Worktree)) → AppState → AppState
refresh_each answers st = foldl (refresh_one answers) st st.projects

unfoldable pub handle_frame : Replies → SyncFrame → AppState → AppState
unfolding refresh_each
handle_frame r (project_created pid) st = refresh_projects r.projects r.first st
handle_frame r (project_deleted pid) st =
    refresh_each r.later (refresh_projects r.projects r.first st)
handle_frame r (project_updated pid) st =
    refresh_each r.later (refresh_projects r.projects r.first st)
handle_frame r (worktree_created wid pid) st = refresh_worktrees_for_project pid (r.later pid) st
handle_frame r (worktree_updated wid pid) st = refresh_worktrees_for_project pid (r.later pid) st
handle_frame r (worktree_deleted wid pid) st = refresh_worktrees_for_project pid (r.later pid) st
handle_frame r (worktree_restored wid pid) st = refresh_worktrees_for_project pid (r.later pid) st
handle_frame r _ st = st
