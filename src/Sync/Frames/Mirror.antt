-- ===== src/Sync/Frames/Mirror.antt =====
-- The store follows the server: each change of the server comes with a frame, and the frame brings
-- the store to the new lists (apps/web/src/core/lib/crossInstanceSync.ts).
use agentgrove.Base.{
  ===_iff, Bool-cases, List, Str, [], foldl, if◌then◌else◌, inl, inr, lookup-insert, refl, subst,
  ◌===◌, ◌∙◌, ◌∷◌, ◌≡◌,
}
use agentgrove.Chat.Session.{ok}
use agentgrove.Store.Types.{AppState, Project, Worktree}
use agentgrove.Store.Refresh.{
  fetch_worktrees, put_worktrees, refresh_projects, refresh_worktrees_for_project,
}
use agentgrove.Store.Refresh.Mirror.{
  HasLists, answered, fetches_all, projects-fetched, refresh_projects-mirrors,
}
use agentgrove.Sync.Frames.{
  Replies, SyncFrame, handle_frame, project_created, project_deleted, project_updated, refresh_each,
  worktree_created, worktree_deleted, worktree_restored, worktree_updated,
}

pub record Server : Type 0 where
  pub projects : List Project
  pub lists : Str → List Worktree

abbrev pub replies_of : Server → Replies
replies_of s = record {
  projects = ok s.projects;
  first = λ pid. ok (s.lists pid);
  later = λ pid. ok (s.lists pid);
}

abbrev pub with_list : Str → List Worktree → Server → Server
with_list pid list s = record s { lists = λ q. if pid === q then list else s.lists q }

abbrev pub with_projects : List Project → Server → Server
with_projects ps s = record s { projects = ps }

-- A change of the server, and the frame that tells it.
pub data Change (s : Server) : SyncFrame → Server → Type 0 where
  creates : (pid : Str) (ps : List Project) → Change s (project_created pid) (with_projects ps s)
  deletes : (pid : Str) (ps : List Project) → Change s (project_deleted pid) (with_projects ps s)
  updates : (pid : Str) (ps : List Project) → Change s (project_updated pid) (with_projects ps s)
  adds :
      (wid pid : Str) (list : List Worktree)
      → Change s (worktree_created wid pid) (with_list pid list s)
  edits :
      (wid pid : Str) (list : List Worktree)
      → Change s (worktree_updated wid pid) (with_list pid list s)
  removes :
      (wid pid : Str) (list : List Worktree)
      → Change s (worktree_deleted wid pid) (with_list pid list s)
  restores :
      (wid pid : Str) (list : List Worktree)
      → Change s (worktree_restored wid pid) (with_list pid list s)

-- The store has the projects of the server, in its order, and their lists.
abbrev pub Mirrors : Server → AppState → Type 0
Mirrors s st = (st.projects ≡ s.projects) × HasLists s.lists st s.projects

-- The changes of the server and the frames that the page handles, each frame before the next
-- change.
pub data Follows : Server → AppState → Server → AppState → Type 0 where
  starts : (s : Server) (st : AppState) → Follows s st s st
  tells :
      {s s' : Server} {st st' : AppState} {frame : SyncFrame} (next : Server)
      → Follows s st s' st'
      → Change s' frame next
      → Follows s st next (handle_frame (replies_of next) frame st')

Mirrors-refresh_each :
    (s : Server) (st : AppState)
    → st.projects ≡ s.projects
    → Mirrors s (refresh_each (replies_of s).later st)
unfolding refresh_each refresh_worktrees_for_project
Mirrors-refresh_each s st e = (
  projects-fetched (answered s.lists) st.projects st ∙ e,
  subst (HasLists s.lists (foldl (fetch_worktrees (answered s.lists)) st st.projects)) e
      (fetches_all s.lists st.projects st),
)

HasLists-put_worktrees :
    (pid : Str) (list : List Worktree) (lists : Str → List Worktree) (st : AppState)
    (ps : List Project)
    → HasLists lists st ps
    → HasLists (λ q. if pid === q then list else lists q) (put_worktrees pid list st) ps
HasLists-put_worktrees pid list lists st [] h = tt
HasLists-put_worktrees pid list lists st (p ∷ ps) (e, h) =
    let rest = HasLists-put_worktrees pid list lists st ps h in
    elim (Bool-cases (pid === p.id)) [
      | inl t ↦ (lookup-insert pid p.id list st.worktrees ∙ rw t refl, rest)
      | inr t ↦ (lookup-insert pid p.id list st.worktrees ∙ rw t e, rest)
    ]

Mirrors-worktrees :
    (pid : Str) (list : List Worktree) (s : Server) (st : AppState)
    → Mirrors s st
    → Mirrors (with_list pid list s) (put_worktrees pid ((with_list pid list s).lists pid) st)
Mirrors-worktrees pid list s st (e, h) =
    rw ((===_iff pid pid).1 refl) (e, HasLists-put_worktrees pid list s.lists st s.projects h)

Mirrors-projects :
    (s : Server) (st : AppState)
    → Mirrors s (
        refresh_each
          (replies_of s).later
          (refresh_projects (ok s.projects) (replies_of s).first st))
Mirrors-projects s st = Mirrors-refresh_each s _ (refresh_projects-mirrors s.lists s.projects st).0

Mirrors-Change :
    {s s' : Server} {frame : SyncFrame} (st : AppState)
    → Change s frame s'
    → Mirrors s st
    → Mirrors s' (handle_frame (replies_of s') frame st)
unfolding handle_frame refresh_worktrees_for_project
Mirrors-Change {s} st (creates pid ps) m = refresh_projects-mirrors s.lists ps st
Mirrors-Change {s} st (deletes pid ps) m = Mirrors-projects (with_projects ps s) st
Mirrors-Change {s} st (updates pid ps) m = Mirrors-projects (with_projects ps s) st
Mirrors-Change {s} st (adds wid pid list) m = Mirrors-worktrees pid list s st m
Mirrors-Change {s} st (edits wid pid list) m = Mirrors-worktrees pid list s st m
Mirrors-Change {s} st (removes wid pid list) m = Mirrors-worktrees pid list s st m
Mirrors-Change {s} st (restores wid pid list) m = Mirrors-worktrees pid list s st m

-- Where the store has the projects of the server and their worktrees, it has them after every
-- series of changes of the server, each told by its frame and handled before the next.
pub Follows-Mirrors :
    {s s' : Server} {st st' : AppState} → Follows s st s' st' → Mirrors s st → Mirrors s' st'
Follows-Mirrors (starts s st) m = m
Follows-Mirrors (tells {st' = st'} next f c) m = Mirrors-Change st' c (Follows-Mirrors f m)
