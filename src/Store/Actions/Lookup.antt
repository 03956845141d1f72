-- ===== src/Store/Actions/Lookup.antt =====
-- What the updates of the store do to the entries of `byScope` (apps/web/src/core/stores/app.ts).
use agentgrove.Base.{
  ===_iff, ===_refl, Bool-cases, Dict, List, Option, Option-cases, Str, arith, false, false≢true,
  inl, inr, insert, lookup, lookup-insert, none, refl, some, sym, true, truthy, ◌===◌, ◌∙◌, ◌≡◌,
  ◌≢◌,
}
use agentgrove.Store.Types.{AppState, ChatTab, Scope, fresh_scope}
use agentgrove.Store.Keys.{current_scope_key, make_key}
use agentgrove.Store.Tabs.{set_scope_chats_in}
use agentgrove.Store.Actions.{
  App, edit_scope, ensure_scope, enter_scope, select_worktree, set_scope_chats, update_scope,
  with_worktree,
}

ne-=== : (a b : Str) → a ≢ b → (a === b) ≡ false
ne-=== a b h = ground (arith, ===_iff a b)

pub lookup-insert_self {ℓ} :
    {V : Type ℓ} (k : Str) (v : V) (m : Dict V) → lookup k (insert k v m) ≡ some v
lookup-insert_self k v m = rw (lookup-insert, ===_refl) refl

pub lookup-insert_ne {ℓ} :
    {V : Type ℓ} (k j : Str) (v : V) (m : Dict V) → j ≢ k → lookup j (insert k v m) ≡ lookup j m
lookup-insert_ne k j v m h = rw (lookup-insert, ne-=== k j (λ e. h (sym e))) refl

pub lookup-update_scope :
    (key : Str) (f : Scope → Scope) (st : AppState) {s : Scope}
    → lookup key st.by_scope ≡ some s
    → lookup key (update_scope key f st).by_scope ≡ some (f s)
unfolding update_scope
lookup-update_scope key f st {s} e = rw (update_scope, e) (lookup-insert_self key (f s) st.by_scope)

pub lookup-update_scope-none :
    (key : Str) (f : Scope → Scope) (st : AppState)
    → lookup key st.by_scope ≡ none
    → update_scope key f st ≡ st
unfolding update_scope
lookup-update_scope-none key f st e = rw (update_scope, e) refl

pub lookup-update_scope_ne :
    (key j : Str) (f : Scope → Scope) (st : AppState)
    → j ≢ key
    → lookup j (update_scope key f st).by_scope ≡ lookup j st.by_scope
unfolding update_scope
lookup-update_scope_ne key j f st h = elim (Option-cases (lookup key st.by_scope)) [
  | inl e ↦ rw (update_scope, e) refl
  | inr (s, e) ↦ rw (update_scope, e) (lookup-insert_ne key j (f s) st.by_scope h)
]

abbrev pub or_fresh : Option Scope → Scope
or_fresh none = fresh_scope
or_fresh (some s) = s

pub lookup-ensure_scope :
    (key : Str) (st : AppState)
    → lookup key (ensure_scope key st).by_scope ≡ some (or_fresh (lookup key st.by_scope))
unfolding ensure_scope
lookup-ensure_scope key st = elim (Option-cases (lookup key st.by_scope)) [
  | inl e ↦ rw (ensure_scope, e) (lookup-insert_self key fresh_scope st.by_scope)
  | inr (s, e) ↦ rw (ensure_scope, e) e
]

pub lookup-ensure_scope_ne :
    (key j : Str) (st : AppState)
    → j ≢ key
    → lookup j (ensure_scope key st).by_scope ≡ lookup j st.by_scope
unfolding ensure_scope
lookup-ensure_scope_ne key j st h = elim (Option-cases (lookup key st.by_scope)) [
  | inl e ↦ rw (ensure_scope, e) (lookup-insert_ne key j fresh_scope st.by_scope h)
  | inr (s, e) ↦ rw (ensure_scope, e) refl
]

-- The current scope is a matter of the selection alone.
pub current_scope_key-update_scope :
    (key : Str) (f : Scope → Scope) (st : AppState)
    → current_scope_key (update_scope key f st) ≡ current_scope_key st
unfolding update_scope current_scope_key
current_scope_key-update_scope key f st = elim (Option-cases (lookup key st.by_scope)) [
  | inl e ↦ rw (update_scope, e) refl
  | inr (s, e) ↦ rw (update_scope, e) refl
]

pub current_scope_key-ensure_scope :
    (key : Str) (st : AppState) → current_scope_key (ensure_scope key st) ≡ current_scope_key st
unfolding ensure_scope current_scope_key
current_scope_key-ensure_scope key st = elim (Option-cases (lookup key st.by_scope)) [
  | inl e ↦ rw (ensure_scope, e) refl
  | inr (s, e) ↦ rw (ensure_scope, e) refl
]

pub current_scope_key-enter_scope :
    (st : AppState) → current_scope_key (enter_scope st) ≡ current_scope_key st
unfolding enter_scope
current_scope_key-enter_scope st = elim (Option-cases (current_scope_key st)) [
  | inl e ↦ rw (enter_scope, e) e
  | inr (key, e) ↦ rw (enter_scope, e) (current_scope_key-ensure_scope key st ∙ e)
]

pub lookup-enter_scope :
    (key : Str) (st : AppState)
    → current_scope_key st ≡ some key
    → lookup key (enter_scope st).by_scope ≡ some (or_fresh (lookup key st.by_scope))
unfolding enter_scope
lookup-enter_scope key st e = rw (enter_scope, e) (lookup-ensure_scope key st)

current_scope_key-with_worktree :
    (pid : Str) (wid : Option Str) (st : AppState)
    → truthy pid ≡ true
    → current_scope_key (with_worktree pid wid st) ≡ some (make_key pid wid)
unfolding current_scope_key
current_scope_key-with_worktree pid wid st t =
    rw (t, lookup-insert_self pid wid st.selected_worktree_by_project) refl

-- A worktree (or the root) that is selected is the current scope from then on, and its tab strip
-- is there: the one that it had, or a fresh one.
pub select_worktree-enters :
    (pid : Str) (wid : Option Str) (st : AppState)
    → truthy pid ≡ true
    → (current_scope_key (select_worktree pid wid st) ≡ some (make_key pid wid))
      × (lookup (make_key pid wid) (select_worktree pid wid st).by_scope
          ≡ some (or_fresh (lookup (make_key pid wid) st.by_scope)))
unfolding select_worktree
select_worktree-enters pid wid st t =
    let e = current_scope_key-with_worktree pid wid st t in
    (
      current_scope_key-enter_scope (with_worktree pid wid st) ∙ e,
      lookup-enter_scope (make_key pid wid) (with_worktree pid wid st) e,
    )

-- A list of chats that was fetched for one scope changes no other scope, whatever is current when
-- it arrives.
pub set_scope_chats-isolated :
    (chats : List ChatTab) (key j : Str) (a : App)
    → j ≢ key
    → lookup j (set_scope_chats chats (some key) a).state.by_scope ≡ lookup j a.state.by_scope
unfolding set_scope_chats edit_scope
set_scope_chats-isolated chats key j a h = elim (Bool-cases (truthy key)) [
  | inl e ↦ rw e (
      lookup-update_scope_ne key j (set_scope_chats_in chats) (ensure_scope key a.state) h
      ∙ lookup-ensure_scope_ne key j a.state h)
  | inr e ↦ rw e refl
]

pub ne_of_=== : (a b : Str) → (a === b) ≡ false → a ≢ b
ne_of_=== a b h = λ e. false≢true (sym h ∙ (===_iff a b).1 e)
