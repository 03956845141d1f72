-- ===== src/Store/Layout.antt =====
-- The layout that the server keeps: `hydrateLayoutFromBackend` of apps/web/src/core/stores/app.ts
-- with its migrations of old blobs. A blob that fails to load changes nothing, and the history of
-- the galaxy map is not modelled.
pub mod Migrated
pub mod OldTabs
pub mod Loaded
use agentgrove.Base.{
  Bool, List, Option, Str, [], any, codes, false, filter, head?, if◌then◌else◌, insert, last_part,
  lookup, map, none, not, some, truthy, ◌&&◌, ◌++◌, ◌===◌, ◌||◌, ◌∷◌,
}
use agentgrove.Store.Types.{AppState, ChatTab, Scope, TerminalTab, UnifiedTab, db, editor, terminal}
use agentgrove.Store.Keys.{is_set, make_key}
use agentgrove.Store.Tabs.{chat_tab, id_of, is_nonempty, refocus}
use agentgrove.Store.Actions.{App, add_tab}

-- `Partial<Scope>`: a field that is missing or null is `none`.
pub record Blob : Type 0 where
  pub tabs : Option (List UnifiedTab)
  pub active_tab : Option Str
  pub active_pane : Option Str
  pub active_editor : Option Str
  pub terminals : Option (List TerminalTab)
  pub active_terminal : Option Str
  pub chats : Option (List ChatTab)
  pub active_chat : Option Str
  pub chats_hydrated : Option Bool

abbrev pub or_nil {ℓ} : {A : Type ℓ} → Option (List A) → List A
or_nil none = []
or_nil (some xs) = xs

abbrev pub or_false : Option Bool → Bool
or_false none = false
or_false (some b) = b

-- `{ ...freshScope(), ...incoming }`.
unfoldable pub base_scope : Blob → Scope
base_scope blob = record {
  tabs = or_nil blob.tabs;
  active_tab = blob.active_tab;
  active_pane = blob.active_pane;
  active_editor = blob.active_editor;
  terminals = blob.terminals;
  active_terminal = blob.active_terminal;
  chats = blob.chats;
  active_chat = blob.active_chat;
  chats_hydrated = or_false blob.chats_hydrated;
}

abbrev pub terminal_tab : TerminalTab → UnifiedTab
terminal_tab t = terminal t.id t.cwd t.label

abbrev pub file_id : Str → Str
file_id path = codes "file:" ++ path

unfoldable pub editor_tab : Str → UnifiedTab
editor_tab path = editor (file_id path) path (last_part [] path)

abbrev pub editor_tabs : Option Str → List UnifiedTab
editor_tabs none = []
editor_tabs (some path) = if truthy path then editor_tab path ∷ [] else []

-- The old layout, as one strip: chats, terminals, then the editor.
unfoldable pub old_tabs : Scope → List UnifiedTab
old_tabs s =
    map chat_tab (or_nil s.chats)
    ++ (map terminal_tab (or_nil s.terminals) ++ editor_tabs s.active_editor)

abbrev pub file_id_of : Option Str → Option Str
file_id_of none = none
file_id_of (some path) = some (file_id path)

unfoldable pub old_focus : Scope → Option Str
unfolding old_tabs
old_focus s =
    if is_set s.active_chat
    then s.active_chat
    else (if is_set s.active_terminal
        then s.active_terminal
        else (if is_set s.active_editor
            then file_id_of s.active_editor
            else id_of (head? (old_tabs s))))

unfoldable pub is_old : Scope → Bool
is_old s =
    not (is_nonempty s.tabs)
    && (is_nonempty (or_nil s.chats) || is_nonempty (or_nil s.terminals) || is_set s.active_editor)

unfoldable pub migrate_tabs : Scope → Scope
unfolding is_old old_tabs old_focus
migrate_tabs s = if is_old s then record s { tabs = old_tabs s; active_tab = old_focus s } else s

-- A database tab of the time when there were several.
abbrev pub is_old_db : UnifiedTab → Bool
is_old_db (db id label) = not (id === codes "db")
is_old_db _ = false

unfoldable pub drop_old_dbs : Scope → Scope
drop_old_dbs s =
    if any is_old_db s.tabs
    then (let tabs = filter (λ t. not (is_old_db t)) s.tabs in
        record s { tabs = tabs; active_tab = refocus tabs s.active_tab })
    else s

unfoldable pub hydrate_scope : Blob → Scope
unfolding base_scope migrate_tabs drop_old_dbs
hydrate_scope blob = drop_old_dbs (migrate_tabs (base_scope blob))

pub record SavedScope : Type 0 where
  pub project_id : Str
  pub worktree_id : Option Str
  pub blob : Blob

-- `setState` merges an object into the one that is there: a field that the new one lacks stays. A
-- field of the old layout that is null counts as lacking.
abbrev pub over {ℓ} : {A : Type ℓ} → Option A → Option A → Option A
over none old = old
over (some v) old = some v

abbrev pub merge_scope : Option Scope → Scope → Scope
merge_scope none s = s
merge_scope (some old) s = record s {
  active_pane = over s.active_pane old.active_pane;
  active_editor = over s.active_editor old.active_editor;
  terminals = over s.terminals old.terminals;
  active_terminal = over s.active_terminal old.active_terminal;
  chats = over s.chats old.chats;
  active_chat = over s.active_chat old.active_chat;
}

unfoldable pub load_scope : SavedScope → AppState → AppState
unfolding hydrate_scope
load_scope s st =
    let key = make_key s.project_id s.worktree_id in
    record st {
      by_scope =
          insert key (merge_scope (lookup key st.by_scope) (hydrate_scope s.blob)) st.by_scope;
    }

unfoldable pub hydrate_layout : List SavedScope → AppState → AppState
unfolding load_scope
hydrate_layout [] st = st
hydrate_layout (s ∷ rest) st = hydrate_layout rest (load_scope s st)

-- What the layout writer sends of a scope.
unfoldable pub blob_of : Scope → Blob
blob_of s = record {
  tabs = some s.tabs;
  active_tab = s.active_tab;
  active_pane = s.active_pane;
  active_editor = s.active_editor;
  terminals = s.terminals;
  active_terminal = s.active_terminal;
  chats = s.chats;
  active_chat = s.active_chat;
  chats_hydrated = some s.chats_hydrated;
}

-- `selectFile` and `openDbEditor` open such tabs.
unfoldable pub select_file : Str → App → App × Bool
unfolding editor_tab
select_file path a = add_tab (editor_tab path) a

unfoldable pub open_db_editor : App → App × Bool
open_db_editor a = add_tab (db (codes "db") (codes "Database")) a
