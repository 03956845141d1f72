-- ===== src/Store/Actions.antt =====
-- The actions on the current scope (apps/web/src/core/stores/app.ts). The debounce timers of the
-- layout writer are the list of the keys whose write is due; the calls of the server that an action
-- makes are its result. `produce` leaves a missing entry alone.
pub mod Lookup
pub mod Focus
pub mod Invariant
use agentgrove.Base.{
  Bool, Dict, List, Option, Str, [], any, codes, false, find, if◌then◌else◌, insert, lookup, none,
  not, some, trim, true, truthy, ◌++◌, ◌===◌, ◌∷◌,
}
use agentgrove.Store.Types.{
  AppState, ChatTab, Scope, UnifiedTab, chat, editor, fresh_scope, has_chat_id, has_tab_id,
  is_chat_tab,
}
use agentgrove.Store.Keys.{current_scope_key}
use agentgrove.Store.Tabs.{
  close_tab_in, open_tab, rename_tab_in, replace_id_in, set_draft_in, set_scope_chats_in,
}

pub record App : Type 0 where
  pub state : AppState
  pub due : List Str

-- `setState("byScope", key, produce(f))`.
unfoldable pub update_scope : Str → (Scope → Scope) → AppState → AppState
update_scope key f st = elim (lookup key st.by_scope) [
  | none ↦ st
  | some s ↦ record st { by_scope = insert key (f s) st.by_scope }
]

unfoldable pub ensure_scope : Str → AppState → AppState
ensure_scope key st = elim (lookup key st.by_scope) [
  | none ↦ record st { by_scope = insert key fresh_scope st.by_scope }
  | some s ↦ st
]

-- Setting the timer again when it runs moves the write, and does not add one.
unfoldable pub schedule_scope_layout_write : Str → List Str → List Str
schedule_scope_layout_write key due = if any (λ k. k === key) due then due else due ++ key ∷ []

-- An update of a scope, with the write of its layout.
unfoldable pub edit_scope : Str → (Scope → Scope) → App → App
unfolding update_scope schedule_scope_layout_write
edit_scope key f a = record {
  state = update_scope key f a.state;
  due = schedule_scope_layout_write key a.due;
}

unfoldable pub current_scope : AppState → Option Scope
current_scope st = elim (current_scope_key st) [ none ↦ none | some key ↦ lookup key st.by_scope ]

unfoldable pub active_tab_of : Scope → Option UnifiedTab
active_tab_of s = elim s.active_tab [
  | none ↦ none
  | some id ↦ if truthy id then find (has_tab_id id) s.tabs else none
]

unfoldable pub active_tab : AppState → Option UnifiedTab
unfolding active_tab_of current_scope
active_tab st = elim (current_scope st) [ none ↦ none | some s ↦ active_tab_of s ]

abbrev pub chat_id_of : Option UnifiedTab → Option Str
chat_id_of (some (chat id title draft)) = some id
chat_id_of _ = none

unfoldable pub selected_chat_id : AppState → Option Str
selected_chat_id st = chat_id_of (active_tab st)

abbrev pub path_of : Option UnifiedTab → Option Str
path_of (some (editor id path label)) = some path
path_of _ = none

unfoldable pub selected_file_path : AppState → Option Str
selected_file_path st = path_of (active_tab st)

-- `ok: false` where no project is selected.
unfoldable pub add_tab : UnifiedTab → App → App × Bool
unfolding ensure_scope edit_scope
add_tab tab a = elim (current_scope_key a.state) [
  | none ↦ (a, false)
  | some key ↦ (edit_scope key (open_tab tab) (record a { state = ensure_scope key a.state }), true)
]

abbrev removed_in : Str → Option Scope → Bool
removed_in id none = false
removed_in id (some s) = (close_tab_in id s).1

unfoldable pub close_tab : Str → App → App × Bool
close_tab id a = elim (current_scope_key a.state) [
  | none ↦ (a, false)
  | some key ↦
      let removed = removed_in id (lookup key a.state.by_scope) in
      (
        record {
          state = update_scope key (λ s. (close_tab_in id s).0) a.state;
          due = if removed then schedule_scope_layout_write key a.due else a.due;
        },
        removed,
      )
]

unfoldable pub set_active_tab : Str → App → App
set_active_tab id a = elim (current_scope_key a.state) [
  | none ↦ a
  | some key ↦ edit_scope key (λ s. record s { active_tab = some id }) a
]

abbrev kind_in : Str → Option Scope → Option UnifiedTab
kind_in id none = none
kind_in id (some s) = find (has_tab_id id) s.tabs

abbrev is_chat_at : Option UnifiedTab → Bool
is_chat_at none = false
is_chat_at (some t) = is_chat_tab t

-- With the call `renameChat(id, title)` of the server, where the tab is a chat.
unfoldable pub rename_tab : Str → Str → App → App × Option (Str × Str)
rename_tab id raw_title a = elim (current_scope_key a.state) [
  | none ↦ (a, none)
  | some key ↦
      let title = trim raw_title in
      if not (truthy title) then (a, none) else (
        edit_scope key (rename_tab_in id title) a,
        if is_chat_at (kind_in id (lookup key a.state.by_scope)) then some (id, title) else none,
      )
]

abbrev key_or : Option Str → Option Str → Option Str
key_or (some k) current = some k
key_or none current = current

unfoldable pub set_scope_chats : List ChatTab → Option Str → App → App
set_scope_chats chats for_key a = elim (key_or for_key (current_scope_key a.state)) [
  | none ↦ a
  | some key ↦
      if truthy key
      then edit_scope key (set_scope_chats_in chats) (record a { state = ensure_scope key a.state })
      else a
]

abbrev pub holds_chat : Str → Option Scope → Bool
holds_chat id none = false
holds_chat id (some s) = any (has_chat_id id) s.tabs

-- `addChatTab({ id, title: "Chat" })` where the chat is not open.
unfoldable pub ensure_chat_tab : Str → App → App
unfolding add_tab set_active_tab
ensure_chat_tab id a = elim (current_scope_key a.state) [
  | none ↦ a
  | some key ↦
      if holds_chat id (current_scope a.state)
      then set_active_tab id a
      else (add_tab (chat id (codes "Chat") none) a).0
]

unfoldable pub set_chat_draft : Str → Str → App → App
set_chat_draft id draft a = elim (current_scope_key a.state) [
  | none ↦ a
  | some key ↦ edit_scope key (set_draft_in id draft) a
]

-- `const key = currentScopeKey(); if (key) ensureScope(key);`.
unfoldable pub enter_scope : AppState → AppState
enter_scope st = elim (current_scope_key st) [ none ↦ st | some key ↦ ensure_scope key st ]

abbrev pub with_worktree : Str → Option Str → AppState → AppState
with_worktree pid wid st = record st {
  selected_project_id = some pid;
  selected_worktree_by_project = insert pid wid st.selected_worktree_by_project;
}

unfoldable pub select_worktree : Str → Option Str → AppState → AppState
unfolding enter_scope
select_worktree pid wid st = enter_scope (with_worktree pid wid st)

-- The first visit of a project goes to its root.
abbrev pub with_project : Str → AppState → AppState
with_project pid st = record st {
  selected_project_id = some pid;
  selected_worktree_by_project = elim (lookup pid st.selected_worktree_by_project) [
    | none ↦ insert pid none st.selected_worktree_by_project
    | some wid ↦ st.selected_worktree_by_project
  ];
}

-- The refresh of the project's worktrees that follows is a call of the server.
unfoldable pub select_project : Str → AppState → AppState
unfolding enter_scope
select_project pid st = enter_scope (with_project pid st)

-- `goToChat`, up to the call that changes the URL.
unfoldable pub go_to_chat : Str → Option Str → Str → App → App
unfolding select_worktree ensure_chat_tab
go_to_chat pid wid id a =
    set_active_tab id (ensure_chat_tab id (record a { state = select_worktree pid wid a.state }))

-- The loop over the scopes ends at the first one that holds the tab.
unfoldable pub replace_in_first : Str → Str → Dict Scope → Option (Str × Dict Scope)
replace_in_first old new [] = none
replace_in_first old new ((key, s) ∷ m) = elim (any (has_tab_id old) s.tabs) [
  | true ↦ some (key, (key, replace_id_in old new s) ∷ m)
  | false ↦ elim (replace_in_first old new m) [
    | none ↦ none
    | some (k, m') ↦ some (k, (key, s) ∷ m')
  ]
]

unfoldable pub replace_terminal_id : Str → Str → App → App
unfolding replace_in_first
replace_terminal_id old new a = elim (replace_in_first old new a.state.by_scope) [
  | none ↦ a
  | some (key, m) ↦ record {
    state = record a.state { by_scope = m };
    due = schedule_scope_layout_write key a.due;
  }
]
