-- ===== src/Routes/Guard.antt =====
-- The guard against links to what is gone (apps/web/src/core/lib/routeSync.ts).
use agentgrove.Base.{
  ===_refl, Bool-cases, List, Option, Str, [], any, ap, arith, false, inl, inr, lookup, none, refl,
  some, subst, sym, true, truthy, ◌&&◌, ◌===◌, ◌∙◌, ◌∷◌, ◌≡◌,
}
use agentgrove.Store.Types.{AppState, Project}
use agentgrove.Store.Tabs.{is_nonempty}
use agentgrove.Routes.{
  fallback_project, first_project, guard_project, guard_target, guard_worktree, has_project,
  if_known, is_gone, is_gone_worktree, worktrees_of,
}

-- No project, or one that the store has.
abbrev pub IsKnown : Option Str → AppState → Type 0
IsKnown none st = Unit
IsKnown (some pid) st = has_project pid st ≡ true

first_project-IsKnown :
    (ps : List Project) (st : AppState) → st.projects ≡ ps → IsKnown (first_project ps) st
unfolding has_project
first_project-IsKnown [] st e = tt
first_project-IsKnown (p ∷ ps) st e = elim (Bool-cases (truthy p.id)) [
  | inl t ↦ rw t (ap (any (λ (q : Project). q.id === p.id)) e ∙ rw ===_refl refl)
  | inr t ↦ rw t tt
]

if_known-IsKnown : (pid : Option Str) (st : AppState) → if_known pid st ≡ true → IsKnown pid st
if_known-IsKnown none st e = tt
if_known-IsKnown (some pid) st e = ground arith

fallback_project-IsKnown : (st : AppState) → IsKnown (fallback_project st) st
unfolding fallback_project
fallback_project-IsKnown st = elim (Bool-cases (if_known st.selected_project_id st)) [
  | inl e ↦
      let at : fallback_project st ≡ st.selected_project_id = rw (fallback_project, e) refl in
      subst (λ x. IsKnown x st) (sym at) (if_known-IsKnown st.selected_project_id st e)
  | inr e ↦
      let at : fallback_project st ≡ first_project st.projects = rw (fallback_project, e) refl in
      subst (λ x. IsKnown x st) (sym at) (first_project-IsKnown st.projects st refl)
]

guard_project-IsKnown :
    (pid : Str) (wid : Option Str) (st : AppState)
    → truthy pid ≡ true
    → is_nonempty st.projects ≡ true
    → IsKnown (guard_project (some pid, wid) st).0.0 st
unfolding guard_project
guard_project-IsKnown pid wid st t n = elim (Bool-cases (has_project pid st)) [
  | inl e ↦
      let at : is_gone pid st ≡ false = rw (t, n, e) refl in
      let same : guard_project (some pid, wid) st ≡ ((some pid, wid), false) =
        rw (guard_project, at) refl in
      subst (λ x. IsKnown x st) (sym (ap (λ x. x.0.0) same)) e
  | inr e ↦
      let at : is_gone pid st ≡ true = rw (t, n, e) refl in
      let same : guard_project (some pid, wid) st ≡ ((fallback_project st, none), true) =
        rw (guard_project, at) refl in
      subst (λ x. IsKnown x st) (sym (ap (λ x. x.0.0) same)) (fallback_project-IsKnown st)
]

guard_worktree-project :
    (target : Option Str × Option Str) (st : AppState) → (guard_worktree target st).0.0 ≡ target.0
unfolding guard_worktree
guard_worktree-project (none, wid) st = refl
guard_worktree-project (some pid, none) st = refl
guard_worktree-project (some pid, some wid) st =
    elim (Bool-cases (
      truthy pid
      && truthy wid
      && has_project pid st
      && is_gone_worktree wid (worktrees_of (lookup pid st.worktrees)))) [
        | inl e ↦ rw e refl
        | inr e ↦ rw e refl
      ]

-- Where the store has projects, a link to any project and worktree leads to a project that the
-- store has, or to none.
pub guard_target-IsKnown :
    (pid : Str) (wid : Option Str) (st : AppState)
    → truthy pid ≡ true
    → is_nonempty st.projects ≡ true
    → IsKnown (guard_target (some pid, wid) st).0.0 st
unfolding guard_target
guard_target-IsKnown pid wid st t n =
    subst (λ x. IsKnown x st) (sym (guard_worktree-project (guard_project (some pid, wid) st).0 st))
      (guard_project-IsKnown pid wid st t n)
