-- ===== src/Store/Actions/Invariant.antt =====
-- The tab strips of all scopes stay valid, whatever the user does
-- (apps/web/src/core/stores/app.ts).
use agentgrove.Base.{
  ===_iff, All, Bool-cases, List, Option, Option-cases, Str, [], any, ap, false, inl, inr, lookup,
  some, some_inj, subst, sym, trim, true, truthy, ◌===◌, ◌∙◌, ◌≡◌,
}
use agentgrove.Store.Types.{AppState, ChatTab, Scope, UnifiedTab, fresh_scope, has_tab_id}
use agentgrove.Store.Keys.{current_scope_key}
use agentgrove.Store.Tabs.{
  close_tab_in, is_id, open_tab, rename_tab_in, set_draft_in, set_scope_chats_in,
}
use agentgrove.Store.Tabs.Valid.{
  IsValid, close_tab_in-IsValid, open_tab-IsValid, rename_tab_in-IsValid, set_draft_in-IsValid,
}
use agentgrove.Store.Tabs.Chats.{IsClear}
use agentgrove.Store.Tabs.Listed.{set_scope_chats_in-IsValid}
use agentgrove.Store.Actions.{
  App, add_tab, close_tab, edit_scope, ensure_scope, enter_scope, rename_tab, select_project,
  select_worktree, set_active_tab, set_chat_draft, set_scope_chats, update_scope, with_project,
  with_worktree,
}
use agentgrove.Store.Actions.Lookup.{
  lookup-ensure_scope, lookup-ensure_scope_ne, lookup-update_scope, lookup-update_scope-none,
  lookup-update_scope_ne, ne_of_===, or_fresh,
}

abbrev pub AllValid : AppState → Type 0
AllValid st = (key : Str) (s : Scope) → lookup key st.by_scope ≡ some s → IsValid s

fresh_scope-IsValid : IsValid fresh_scope
fresh_scope-IsValid = record { distinct = tt; focused = tt }

or_fresh-IsValid :
    (key : Str) (st : AppState) → AllValid st → IsValid (or_fresh (lookup key st.by_scope))
or_fresh-IsValid key st v = elim (Option-cases (lookup key st.by_scope)) [
  | inl e ↦ rw e fresh_scope-IsValid
  | inr (s, e) ↦ rw e (v key s e)
]

ensure_scope-AllValid : (key : Str) (st : AppState) → AllValid st → AllValid (ensure_scope key st)
ensure_scope-AllValid key st v j s e = elim (Bool-cases (j === key)) [
  | inl k ↦
      let same : j ≡ key = (===_iff j key).0 k in
      let at : lookup j (ensure_scope key st).by_scope ≡ some (or_fresh (lookup key st.by_scope)) =
        ap (λ x. lookup x (ensure_scope key st).by_scope) same ∙ lookup-ensure_scope key st in
      let it : or_fresh (lookup key st.by_scope) ≡ s = some_inj (sym at ∙ e) in
      subst IsValid it (or_fresh-IsValid key st v)
  | inr k ↦ v j s (sym (lookup-ensure_scope_ne key j st (ne_of_=== j key k)) ∙ e)
]

-- An update that keeps the strip of its scope valid.
update_scope-AllValid :
    (key : Str) (f : Scope → Scope) (st : AppState)
    → ((s : Scope) → lookup key st.by_scope ≡ some s → IsValid s → IsValid (f s))
    → AllValid st
    → AllValid (update_scope key f st)
update_scope-AllValid key f st keep v j s e = elim (Bool-cases (j === key)) [
  | inl k ↦
      let same : j ≡ key = (===_iff j key).0 k in
      at_key (subst (λ x. lookup x (update_scope key f st).by_scope ≡ some s) same e)
  | inr k ↦ v j s (sym (lookup-update_scope_ne key j f st (ne_of_=== j key k)) ∙ e)
]
  where
    at_key : lookup key (update_scope key f st).by_scope ≡ some s → IsValid s
    at_key g = elim (Option-cases (lookup key st.by_scope)) [
      | inl n ↦ v key s (
          ap (λ (t : AppState). lookup key t.by_scope) (sym (lookup-update_scope-none key f st n))
          ∙ g)
      | inr (s', n) ↦
          subst IsValid (some_inj (sym (lookup-update_scope key f st n) ∙ g))
            (keep s' n (v key s' n))
    ]

enter_scope-AllValid : (st : AppState) → AllValid st → AllValid (enter_scope st)
unfolding enter_scope
enter_scope-AllValid st v = elim (Option-cases (current_scope_key st)) [
  | inl e ↦ rw (enter_scope, e) v
  | inr (key, e) ↦ rw (enter_scope, e) (ensure_scope-AllValid key st v)
]

add_tab-AllValid :
    (tab : UnifiedTab) (a : App) → AllValid a.state → AllValid (add_tab tab a).0.state
unfolding add_tab
add_tab-AllValid tab a v = elim (Option-cases (current_scope_key a.state)) [
  | inl e ↦ rw (add_tab, e) v
  | inr (key, e) ↦
      rw (add_tab, e)
        (update_scope-AllValid key (open_tab tab) (ensure_scope key a.state)
          (λ s _ k. open_tab-IsValid tab s k) (ensure_scope-AllValid key a.state v))
]

close_tab-AllValid : (id : Str) (a : App) → AllValid a.state → AllValid (close_tab id a).0.state
unfolding close_tab
close_tab-AllValid id a v = elim (Option-cases (current_scope_key a.state)) [
  | inl e ↦ rw (close_tab, e) v
  | inr (key, e) ↦
      rw (close_tab, e)
        (update_scope-AllValid key (λ s. (close_tab_in id s).0) a.state
          (λ s _ k. close_tab_in-IsValid id s k) v)
]

rename_tab-AllValid :
    (id title : Str) (a : App) → AllValid a.state → AllValid (rename_tab id title a).0.state
unfolding rename_tab edit_scope
rename_tab-AllValid id title a v = elim (Option-cases (current_scope_key a.state)) [
  | inl e ↦ rw (rename_tab, e) v
  | inr (key, e) ↦ elim (Bool-cases (truthy (trim title))) [
    | inl k ↦
        rw (rename_tab, e, k)
          (update_scope-AllValid key (rename_tab_in id (trim title)) a.state
            (λ s _ w. rename_tab_in-IsValid id (trim title) s w) v)
    | inr k ↦ rw (rename_tab, e, k) v
  ]
]

set_chat_draft-AllValid :
    (id draft : Str) (a : App) → AllValid a.state → AllValid (set_chat_draft id draft a).state
unfolding set_chat_draft edit_scope
set_chat_draft-AllValid id draft a v = elim (Option-cases (current_scope_key a.state)) [
  | inl e ↦ rw (set_chat_draft, e) v
  | inr (key, e) ↦
      rw (set_chat_draft, e)
        (update_scope-AllValid key (set_draft_in id draft) a.state
          (λ s _ w. set_draft_in-IsValid id draft s w) v)
]

-- The focus is given to a tab that the current scope has.
abbrev pub IsOpenTab : Str → AppState → Type 0
IsOpenTab id st =
    (key : Str) (s : Scope)
    → current_scope_key st ≡ some key
    → lookup key st.by_scope ≡ some s
    → any (has_tab_id id) s.tabs ≡ true

set_active_tab-AllValid :
    (id : Str) (a : App)
    → IsOpenTab id a.state
    → AllValid a.state
    → AllValid (set_active_tab id a).state
unfolding set_active_tab edit_scope
set_active_tab-AllValid id a o v = elim (Option-cases (current_scope_key a.state)) [
  | inl e ↦ rw (set_active_tab, e) v
  | inr (key, e) ↦
      rw (set_active_tab, e)
        (update_scope-AllValid key (λ s. record s { active_tab = some id }) a.state
          (λ s n w. record { distinct = w.distinct; focused = o key s e n }) v)
]

-- A chat list that fits the scope that it is for.
abbrev pub Fits : List ChatTab → Scope → Type 0
Fits chats s = All (IsClear chats) s.tabs × (is_id s.active_tab [] ≡ false)

set_scope_chats-AllValid :
    (chats : List ChatTab) (key : Str) (a : App)
    → Fits chats (or_fresh (lookup key a.state.by_scope))
    → AllValid a.state
    → AllValid (set_scope_chats chats (some key) a).state
unfolding set_scope_chats edit_scope
set_scope_chats-AllValid chats key a f v = elim (Bool-cases (truthy key)) [
  | inl e ↦ rw e (
      update_scope-AllValid key (set_scope_chats_in chats) (ensure_scope key a.state)
        (λ s n w.
          let it : or_fresh (lookup key a.state.by_scope) ≡ s =
            some_inj (sym (lookup-ensure_scope key a.state) ∙ n) in
          let fit = subst (Fits chats) it f in set_scope_chats_in-IsValid chats s fit.0 fit.1 w)
        (ensure_scope-AllValid key a.state v))
  | inr e ↦ rw e v
]

-- One action of the user or answer of the server.
pub data Step (a : App) : App → Type 0 where
  adds : (tab : UnifiedTab) → Step a (add_tab tab a).0
  closes : (id : Str) → Step a (close_tab id a).0
  focuses : (id : Str) → IsOpenTab id a.state → Step a (set_active_tab id a)
  renames : (id title : Str) → Step a (rename_tab id title a).0
  drafts : (id draft : Str) → Step a (set_chat_draft id draft a)
  selects :
      (pid : Str) (wid : Option Str) → Step a (record a { state = select_worktree pid wid a.state })
  opens : (pid : Str) → Step a (record a { state = select_project pid a.state })
  lists :
      (chats : List ChatTab) (key : Str)
      → Fits chats (or_fresh (lookup key a.state.by_scope))
      → Step a (set_scope_chats chats (some key) a)

pub data Reach (a : App) : App → Type 0 where
  stay : Reach a a
  next : {b c : App} → Reach a b → Step b c → Reach a c

Step-AllValid : {a b : App} → Step a b → AllValid a.state → AllValid b.state
unfolding select_worktree select_project
Step-AllValid {a} (adds tab) v = add_tab-AllValid tab a v
Step-AllValid {a} (closes id) v = close_tab-AllValid id a v
Step-AllValid {a} (focuses id o) v = set_active_tab-AllValid id a o v
Step-AllValid {a} (renames id title) v = rename_tab-AllValid id title a v
Step-AllValid {a} (drafts id draft) v = set_chat_draft-AllValid id draft a v
Step-AllValid {a} (selects pid wid) v = enter_scope-AllValid (with_worktree pid wid a.state) v
Step-AllValid {a} (opens pid) v = enter_scope-AllValid (with_project pid a.state) v
Step-AllValid {a} (lists chats key f) v = set_scope_chats-AllValid chats key a f v

-- From valid strips every run of actions, in which a focus is given to an open tab and a chat list
-- fits its scope, leads to valid strips in all scopes: no two tabs of a strip have one id, and the
-- focus is on a tab of the strip or nowhere.
pub Reach-AllValid : {a b : App} → Reach a b → AllValid a.state → AllValid b.state
Reach-AllValid stay v = v
Reach-AllValid (next r st) v = Step-AllValid st (Reach-AllValid r v)
