-- ===== src/Store/Actions/Focus.antt =====
-- Going to a chat of any scope (apps/web/src/core/stores/app.ts, `goToChat`).
use agentgrove.Base.{
  ===_iff, ===_refl, All, All-append, Bool-cases, List, Option, Str, [], any, ap, arith, codes,
  false, find, if◌then◌else◌, inl, inr, lookup, none, refl, some, true, truthy, ◌++◌, ◌===◌, ◌∙◌,
  ◌∷◌, ◌≡◌, ◌≢◌,
}
use agentgrove.Store.Types.{
  AppState, Scope, UnifiedTab, chat, db, editor, has_chat_id, has_tab_id, is_chat_tab, tab_id,
  terminal,
}
use agentgrove.Store.Keys.{current_scope_key, make_key}
use agentgrove.Store.Tabs.{open_tab}
use agentgrove.Store.Actions.{
  App, active_tab, active_tab_of, add_tab, chat_id_of, current_scope, edit_scope, ensure_chat_tab,
  ensure_scope, go_to_chat, holds_chat, select_worktree, selected_chat_id, set_active_tab,
}
use agentgrove.Store.Actions.Lookup.{
  current_scope_key-update_scope, lookup-update_scope, or_fresh, select_worktree-enters,
}

-- What showing a chat makes of the scope.
abbrev show_chat : Str → Scope → Scope
show_chat id s =
    if any (has_chat_id id) s.tabs
    then record s { active_tab = some id }
    else open_tab (chat id (codes "Chat") none) s

pub edit_scope-at :
    (key : Str) (f : Scope → Scope) (a : App) {s : Scope}
    → current_scope_key a.state ≡ some key
    → lookup key a.state.by_scope ≡ some s
    → (current_scope_key (edit_scope key f a).state ≡ some key)
      × (lookup key (edit_scope key f a).state.by_scope ≡ some (f s))
unfolding edit_scope
edit_scope-at key f a c e =
    (current_scope_key-update_scope key f a.state ∙ c, lookup-update_scope key f a.state e)

set_active_tab-at :
    (key id : Str) (a : App) {s : Scope}
    → current_scope_key a.state ≡ some key
    → lookup key a.state.by_scope ≡ some s
    → (current_scope_key (set_active_tab id a).state ≡ some key)
      × (lookup key (set_active_tab id a).state.by_scope ≡ some (record s { active_tab = some id }))
unfolding set_active_tab
set_active_tab-at key id a c e =
    rw (set_active_tab, c) (edit_scope-at key (λ s. record s { active_tab = some id }) a c e)

add_tab-at :
    (key : Str) (tab : UnifiedTab) (a : App) {s : Scope}
    → current_scope_key a.state ≡ some key
    → lookup key a.state.by_scope ≡ some s
    → (current_scope_key (add_tab tab a).0.state ≡ some key)
      × (lookup key (add_tab tab a).0.state.by_scope ≡ some (open_tab tab s))
unfolding add_tab ensure_scope
add_tab-at key tab a c e =
    rw (add_tab, c) (rw (ensure_scope, e) (edit_scope-at key (open_tab tab) a c e))

holds_current :
    (key id : Str) (st : AppState) {s : Scope}
    → current_scope_key st ≡ some key
    → lookup key st.by_scope ≡ some s
    → holds_chat id (current_scope st) ≡ any (has_chat_id id) s.tabs
unfolding current_scope
holds_current key id st c e = rw (current_scope, c, e) refl

ensure_chat_tab-at :
    (key id : Str) (a : App) {s : Scope}
    → current_scope_key a.state ≡ some key
    → lookup key a.state.by_scope ≡ some s
    → (current_scope_key (ensure_chat_tab id a).state ≡ some key)
      × (lookup key (ensure_chat_tab id a).state.by_scope ≡ some (show_chat id s))
unfolding ensure_chat_tab
ensure_chat_tab-at key id a {s} c e =
    let holds : holds_chat id (current_scope a.state) ≡ any (has_chat_id id) s.tabs =
      holds_current key id a.state c e in
    elim (Bool-cases (any (has_chat_id id) s.tabs)) [
      | inl k ↦ rw (ensure_chat_tab, c, holds, k) (set_active_tab-at key id a c e)
      | inr k ↦
          rw (ensure_chat_tab, c, holds, k) (add_tab-at key (chat id (codes "Chat") none) a c e)
    ]

-- No tab of another kind has the id.
abbrev pub IsChatId : Str → UnifiedTab → Type 0
IsChatId id t = is_chat_tab t ≡ false → tab_id t ≢ id

find_chat :
    (id : Str) (ts : List UnifiedTab)
    → All (IsChatId id) ts
    → any (has_tab_id id) ts ≡ true
    → chat_id_of (find (has_tab_id id) ts) ≡ some id
find_chat id [] h m = cc
find_chat id (t ∷ ts) h m = elim (Bool-cases (tab_id t === id)) [
  | inl e ↦ rw e (found t h.0 ((===_iff (tab_id t) id).0 e))
  | inr e ↦ rw e (find_chat id ts h.1 (ground arith))
]
  where
    found : (u : UnifiedTab) → IsChatId id u → tab_id u ≡ id → chat_id_of (some u) ≡ some id
    found (chat i title draft) k e = ap some e
    found (terminal i cwd label) k e = absurd (k refl e)
    found (editor i path label) k e = absurd (k refl e)
    found (db i label) k e = absurd (k refl e)

any_tab_of_chat :
    (id : Str) (ts : List UnifiedTab)
    → any (has_chat_id id) ts ≡ true
    → any (has_tab_id id) ts ≡ true
any_tab_of_chat id [] h = h
any_tab_of_chat id (t ∷ ts) h = ground (arith, any_tab_of_chat id ts)

show_chat_shows :
    (id : Str) (s : Scope)
    → All (IsChatId id) s.tabs
    → All (IsChatId id) (show_chat id s).tabs × (any (has_tab_id id) (show_chat id s).tabs ≡ true)
unfolding open_tab
show_chat_shows id s h = elim (Bool-cases (any (has_chat_id id) s.tabs)) [
  | inl e ↦ rw e (h, any_tab_of_chat id s.tabs e)
  | inr e ↦ rw e (elim (Bool-cases (any (has_tab_id id) s.tabs)) [
    | inl k ↦ rw k (h, k)
    | inr k ↦ rw k (All-append (IsChatId id) s.tabs (new_tab ∷ []) h (λ x. cc, tt), any_new s.tabs)
  ])
]
  where
    new_tab : UnifiedTab
    new_tab = chat id (codes "Chat") none

    any_new : (ts : List UnifiedTab) → any (has_tab_id id) (ts ++ new_tab ∷ []) ≡ true
    any_new [] = rw ===_refl refl
    any_new (t ∷ ts) = ground (arith, any_new ts)

active_tab_of-at :
    (id : Str) (s : Scope)
    → truthy id ≡ true
    → All (IsChatId id) s.tabs
    → any (has_tab_id id) s.tabs ≡ true
    → chat_id_of (active_tab_of (record s { active_tab = some id })) ≡ some id
unfolding active_tab_of
active_tab_of-at id s t h m = rw t (find_chat id s.tabs h m)

current_scope-at :
    (key : Str) (st : AppState) {s : Scope}
    → current_scope_key st ≡ some key
    → lookup key st.by_scope ≡ some s
    → current_scope st ≡ some s
unfolding current_scope
current_scope-at key st c e = rw (current_scope, c) e

selected_chat_id-at :
    (key : Str) (st : AppState) {s : Scope}
    → current_scope_key st ≡ some key
    → lookup key st.by_scope ≡ some s
    → selected_chat_id st ≡ chat_id_of (active_tab_of s)
unfolding selected_chat_id active_tab
selected_chat_id-at key st {s} c e =
    rw (selected_chat_id, active_tab, current_scope-at key st {s = s} c e) refl

-- Going to a chat of any project and worktree, from wherever the user is, makes it the selected
-- chat, whether its tab is open there or not, provided that no tab of another kind in that scope
-- has its id.
pub go_to_chat-selects :
    (pid : Str) (wid : Option Str) (id : Str) (a : App)
    → truthy pid ≡ true
    → truthy id ≡ true
    → All (IsChatId id) (or_fresh (lookup (make_key pid wid) a.state.by_scope)).tabs
    → (current_scope_key (go_to_chat pid wid id a).state ≡ some (make_key pid wid))
      × (selected_chat_id (go_to_chat pid wid id a).state ≡ some id)
unfolding go_to_chat
go_to_chat-selects pid wid id a t u h =
    let key = make_key pid wid in
    let s = or_fresh (lookup key a.state.by_scope) in
    let (c0, e0) = select_worktree-enters pid wid a.state t in
    let a1 : App = record a { state = select_worktree pid wid a.state } in
    let (c1, e1) = ensure_chat_tab-at key id a1 {s = s} c0 e0 in
    let (c2, e2) = set_active_tab-at key id (ensure_chat_tab id a1) {s = show_chat id s} c1 e1 in
    let (clear, shown) = show_chat_shows id s h in
    (
      c2,
      selected_chat_id-at key (set_active_tab id (ensure_chat_tab id a1)).state c2 e2
          ∙ active_tab_of-at id (show_chat id s) u clear shown,
    )
