-- ===== src/Store/Types.antt =====
-- The state of apps/web/src/core/stores/app.ts. `null` and a missing field are both `none`: the
-- source tells them apart nowhere. Values that the store only keeps and hands on (providers, themes,
-- settings) are the values that came over the wire.
use agentgrove.Base.{Bool, Dict, List, Option, Str, [], codes, false, none, true, ◌&&◌, ◌===◌}
use agentgrove.Base.Json.{Fields, Json}

pub record TerminalTab : Type 0 where
  pub id : Str
  pub cwd : Str
  pub label : Str

pub record ChatTab : Type 0 where
  pub id : Str
  pub title : Str
  pub draft : Option Str

pub data UnifiedTab : Type 0 where
  chat : (id title : Str) (draft : Option Str) → UnifiedTab
  terminal : (id cwd label : Str) → UnifiedTab
  editor : (id path label : Str) → UnifiedTab
  db : (id label : Str) → UnifiedTab

pub data TabKind : Type 0 where
  is_chat is_terminal is_editor is_db : TabKind

abbrev pub tab_id : UnifiedTab → Str
tab_id (chat id title draft) = id
tab_id (terminal id cwd label) = id
tab_id (editor id path label) = id
tab_id (db id label) = id

abbrev pub kind : UnifiedTab → TabKind
kind (chat id title draft) = is_chat
kind (terminal id cwd label) = is_terminal
kind (editor id path label) = is_editor
kind (db id label) = is_db

-- The tests `t.id === id` and `t.kind === "chat" && t.id === id`.
abbrev pub has_tab_id : Str → UnifiedTab → Bool
has_tab_id id t = tab_id t === id

abbrev pub is_chat_tab : UnifiedTab → Bool
is_chat_tab (chat id title draft) = true
is_chat_tab _ = false

abbrev pub has_chat_id : Str → UnifiedTab → Bool
has_chat_id id t = is_chat_tab t && has_tab_id id t

pub record Scope : Type 0 where
  pub tabs : List UnifiedTab
  pub active_tab : Option Str
  pub active_pane : Option Str
  pub active_editor : Option Str
  pub terminals : Option (List TerminalTab)
  pub active_terminal : Option Str
  pub chats : Option (List ChatTab)
  pub active_chat : Option Str
  pub chats_hydrated : Bool

abbrev pub fresh_scope : Scope
fresh_scope = record {
  tabs = [];
  active_tab = none;
  active_pane = none;
  active_editor = none;
  terminals = none;
  active_terminal = none;
  chats = none;
  active_chat = none;
  chats_hydrated = false;
}

-- The fields of a project and of a worktree that the store reads.
pub record Project : Type 0 where
  pub id : Str
  pub name : Str
  pub root : Str

pub record Worktree : Type 0 where
  pub id : Str
  pub project_id : Str
  pub branch : Str
  pub path : Str
  pub removed_at : Option Str

pub record AppState : Type 0 where
  pub ready : Bool
  pub load_error : Option Str
  pub projects : List Project
  pub providers : List Json
  pub selected_project_id : Option Str
  pub selected_worktree_by_project : Dict (Option Str)
  pub worktrees : Dict (List Worktree)
  pub themes : List Json
  pub theme_id : Str
  pub settings : Json
  pub by_scope : Dict Scope

abbrev pub initial_state : AppState
initial_state = record {
  ready = false;
  load_error = none;
  projects = [];
  providers = [];
  selected_project_id = none;
  selected_worktree_by_project = [];
  worktrees = [];
  themes = [];
  theme_id = codes "dark-default";
  settings = Json.obj Fields.end;
  by_scope = [];
}
