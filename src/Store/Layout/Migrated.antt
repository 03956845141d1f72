-- ===== src/Store/Layout/Migrated.antt =====
-- What a loaded layout looks like (apps/web/src/core/stores/app.ts).
use agentgrove.Base.{
  Bool, Bool-cases, List, Option, [], any, ap, false, filter, inl, inr, lookup, none, not, refl,
  some, true, ◌++◌, ◌∙◌, ◌∷◌, ◌≡◌,
}
use agentgrove.Store.Types.{AppState, Scope}
use agentgrove.Store.Keys.{make_key}
use agentgrove.Store.Tabs.{is_nonempty}
use agentgrove.Store.Layout.{
  Blob, SavedScope, base_scope, blob_of, drop_old_dbs, hydrate_layout, hydrate_scope, is_old,
  is_old_db, load_scope, merge_scope, migrate_tabs,
}
use agentgrove.Store.Actions.Lookup.{lookup-insert_self}

any-filter-not {ℓ} :
    {A : Type ℓ} (f : A → Bool) (xs : List A) → any f (filter (λ x. not (f x)) xs) ≡ false
any-filter-not f [] = refl
any-filter-not f (x ∷ xs) = elim (Bool-cases (f x)) [
  | inl e ↦ rw e (any-filter-not f xs)
  | inr e ↦ rw e (rw e (any-filter-not f xs))
]

no_old_db : (s : Scope) → any is_old_db (drop_old_dbs s).tabs ≡ false
unfolding drop_old_dbs
no_old_db s = elim (Bool-cases (any is_old_db s.tabs)) [
  | inl e ↦ rw (drop_old_dbs, e) (any-filter-not is_old_db s.tabs)
  | inr e ↦ rw (drop_old_dbs, e) e
]

base_scope-blob_of : (s : Scope) → base_scope (blob_of s) ≡ s
unfolding base_scope blob_of
base_scope-blob_of s = refl

migrate_tabs-none : (s : Scope) → is_old s ≡ false → migrate_tabs s ≡ s
unfolding migrate_tabs
migrate_tabs-none s e = rw (migrate_tabs, e) refl

drop_old_dbs-none : (s : Scope) → any is_old_db s.tabs ≡ false → drop_old_dbs s ≡ s
unfolding drop_old_dbs
drop_old_dbs-none s e = rw (drop_old_dbs, e) refl

is_old-nonempty : (s : Scope) → is_nonempty s.tabs ≡ true → is_old s ≡ false
unfolding is_old
is_old-nonempty s h = rw (is_old, h) refl

-- A loaded scope has no database tab but the one named `db`.
pub hydrate_scope_single_db : (blob : Blob) → any is_old_db (hydrate_scope blob).tabs ≡ false
unfolding hydrate_scope
hydrate_scope_single_db blob = no_old_db (migrate_tabs (base_scope blob))

-- Saving a loaded scope that has a tab and loading it again gives the same scope.
pub hydrate_scope-blob_of :
    (blob : Blob)
    → is_nonempty (hydrate_scope blob).tabs ≡ true
    → hydrate_scope (blob_of (hydrate_scope blob)) ≡ hydrate_scope blob
unfolding hydrate_scope
hydrate_scope-blob_of blob h =
    ap (λ s. drop_old_dbs (migrate_tabs s)) (base_scope-blob_of _)
    ∙ ap drop_old_dbs (migrate_tabs-none _ (is_old-nonempty (hydrate_scope blob) h))
    ∙ drop_old_dbs-none _ (hydrate_scope_single_db blob)

merge_scope_strip :
    (old : Option Scope) (s : Scope)
    → ((merge_scope old s).tabs ≡ s.tabs) × ((merge_scope old s).active_tab ≡ s.active_tab)
merge_scope_strip none s = (refl, refl)
merge_scope_strip (some old) s = (refl, refl)

lookup-load_scope :
    (s : SavedScope) (st : AppState)
    → lookup (make_key s.project_id s.worktree_id) (load_scope s st).by_scope
      ≡ some (
          merge_scope
            (lookup (make_key s.project_id s.worktree_id) st.by_scope)
            (hydrate_scope s.blob))
unfolding load_scope
lookup-load_scope s st = lookup-insert_self (make_key s.project_id s.worktree_id) _ st.by_scope

-- After a layout is loaded, the key of its last saved scope has a scope with the tabs and the focus
-- that its blob gives, whatever was there before.
pub lookup-hydrate_layout :
    (saved : List SavedScope) (s : SavedScope) (st : AppState)
    → (t : Scope) × (lookup
          (make_key s.project_id s.worktree_id)
          (hydrate_layout (saved ++ s ∷ []) st).by_scope
        ≡ some t)
      × (t.tabs ≡ (hydrate_scope s.blob).tabs)
      × (t.active_tab ≡ (hydrate_scope s.blob).active_tab)
unfolding hydrate_layout
lookup-hydrate_layout [] s st =
    let old = lookup (make_key s.project_id s.worktree_id) st.by_scope in
    let same = merge_scope_strip old (hydrate_scope s.blob) in
    (merge_scope old (hydrate_scope s.blob), lookup-load_scope s st, same.0, same.1)
lookup-hydrate_layout (t ∷ saved) s st = lookup-hydrate_layout saved s (load_scope t st)
