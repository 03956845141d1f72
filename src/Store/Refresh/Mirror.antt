-- ===== src/Store/Refresh/Mirror.antt =====
-- After a refresh the store has what the server said (apps/web/src/core/stores/app.ts).
use agentgrove.Base.{
  ===_iff, All, Bool-cases, Dict, List, Option-cases, Str, [], ap, foldl, inl, inr, lookup,
  lookup-insert, refl, some, subst, sym, ◌===◌, ◌∙◌, ◌∷◌, ◌≡◌,
}
use agentgrove.Store.Types.{AppState, Project, Worktree}
use agentgrove.Store.Actions.Lookup.{lookup-insert_self}
use agentgrove.Chat.Session.{Answer, failed, ok}
use agentgrove.Store.Keys.{current_scope_key, is_set}
use agentgrove.Store.Actions.{ensure_scope, enter_scope, select_project, with_project}
use agentgrove.Store.Refresh.{fetch_worktrees, put_answer, refresh_projects, select_first}

-- The store has the lists of worktrees of the projects.
abbrev pub HasLists : (Str → List Worktree) → AppState → List Project → Type 0
HasLists lists st = All (λ (p : Project). lookup p.id st.worktrees ≡ some (lists p.id))

abbrev pub answered : (Str → List Worktree) → Str → Answer (List Worktree)
answered lists pid = ok (lists pid)

-- A fetch of the list of one project keeps the lists that are there.
keeps_list :
    (lists : Str → List Worktree) (pid : Str) (p : Project) (st : AppState)
    → lookup pid st.worktrees ≡ some (lists pid)
    → lookup pid (fetch_worktrees (answered lists) st p).worktrees ≡ some (lists pid)
keeps_list lists pid p st h = elim (Bool-cases (p.id === pid)) [
  | inl e ↦
      let same : p.id ≡ pid = (===_iff p.id pid).0 e in
      rw (lookup-insert, e) (ap (λ x. some (lists x)) same)
  | inr e ↦ rw (lookup-insert, e) h
]

keeps_all :
    (lists : Str → List Worktree) (pid : Str) (ps : List Project) (st : AppState)
    → lookup pid st.worktrees ≡ some (lists pid)
    → lookup pid (foldl (fetch_worktrees (answered lists)) st ps).worktrees ≡ some (lists pid)
keeps_all lists pid [] st h = h
keeps_all lists pid (p ∷ ps) st h =
    keeps_all lists pid ps (fetch_worktrees (answered lists) st p) (keeps_list lists pid p st h)

pub fetches_all :
    (lists : Str → List Worktree) (ps : List Project) (st : AppState)
    → HasLists lists (foldl (fetch_worktrees (answered lists)) st ps) ps
fetches_all lists [] st = tt
fetches_all lists (p ∷ ps) st = (
  keeps_all lists p.id ps (fetch_worktrees (answered lists) st p)
      (lookup-insert_self p.id (lists p.id) st.worktrees),
  fetches_all lists ps (fetch_worktrees (answered lists) st p),
)

projects-put_answer :
    (pid : Str) (st : AppState) (a : Answer (List Worktree))
    → (put_answer pid st a).projects ≡ st.projects
projects-put_answer pid st (ok list) = refl
projects-put_answer pid st (failed message) = refl

-- The projects stay, whatever the answers are.
pub projects-fetched :
    (answers : Str → Answer (List Worktree)) (ps : List Project) (st : AppState)
    → (foldl (fetch_worktrees answers) st ps).projects ≡ st.projects
projects-fetched answers [] st = refl
projects-fetched answers (p ∷ ps) st =
    projects-fetched answers ps (fetch_worktrees answers st p)
    ∙ projects-put_answer p.id st (answers p.id)

enter_scope-keeps :
    (st : AppState)
    → ((enter_scope st).projects ≡ st.projects) × ((enter_scope st).worktrees ≡ st.worktrees)
unfolding enter_scope ensure_scope
enter_scope-keeps st = elim (Option-cases (current_scope_key st)) [
  | inl e ↦ (rw (enter_scope, e) refl, rw (enter_scope, e) refl)
  | inr (key, e) ↦ elim (Option-cases (lookup key st.by_scope)) [
    | inl k ↦ (rw (enter_scope, e, ensure_scope, k) refl, rw (enter_scope, e, ensure_scope, k) refl)
    | inr (s, k) ↦
        (rw (enter_scope, e, ensure_scope, k) refl, rw (enter_scope, e, ensure_scope, k) refl)
  ]
]

select_first-keeps :
    (ps : List Project) (st : AppState)
    → ((select_first ps st).projects ≡ st.projects)
      × ((select_first ps st).worktrees ≡ st.worktrees)
unfolding select_project
select_first-keeps [] st = (refl, refl)
select_first-keeps (p ∷ ps) st = elim (Bool-cases (is_set st.selected_project_id)) [
  | inl e ↦ (rw e refl, rw e refl)
  | inr e ↦
      let kept = enter_scope-keeps (with_project p.id st) in
      (rw (select_project, e) kept.0, rw (select_project, e) kept.1)
]

-- After a refresh that the server answers in full the store has the server's projects, in its
-- order, and the list of worktrees of each of them, whatever the store had before.
pub refresh_projects-mirrors :
    (lists : Str → List Worktree) (ps : List Project) (st : AppState)
    → ((refresh_projects (ok ps) (answered lists) st).projects ≡ ps)
      × HasLists lists (refresh_projects (ok ps) (answered lists) st) ps
unfolding refresh_projects
refresh_projects-mirrors lists ps st =
    let fetched : AppState =
      foldl (fetch_worktrees (answered lists)) (record st { projects = ps }) ps in
    (
      (select_first-keeps ps fetched).0
          ∙ projects-fetched (answered lists) ps (record st { projects = ps }),
      subst
          (λ (m : Dict (List Worktree)).
            All (λ (p : Project). lookup p.id m ≡ some (lists p.id)) ps)
          (sym (select_first-keeps ps fetched).1)
          (fetches_all lists ps (record st { projects = ps })),
    )
