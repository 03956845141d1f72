-- ===== src/Pane/Scope.antt =====
-- The refresh of the chats of the scope: `refreshScopeChats` of
-- apps/web/src/shells/desktop/panes/ChatPane.tsx, composed with `setScopeChats` of
-- apps/web/src/core/stores/app.ts.
pub mod Kept
use agentgrove.Base.{
  Bool, List, Option, Str, [], all, codes, false, filter, if◌then◌else◌, includes, map, none, not,
  some, true, truthy, ◌&&◌, ◌++◌, ◌===◌, ◌||◌, ◌∷◌,
}
use agentgrove.Store.Types.{ChatTab, Scope, UnifiedTab, chat}
use agentgrove.Store.Keys.{current_scope_key, current_worktree_id, is_set, scope_of_key}
use agentgrove.Store.Actions.{App, current_scope, set_scope_chats}
use agentgrove.Chat.Session.{Answer, failed, ok}

-- What the server lists of a chat.
pub record ChatSummary : Type 0 where
  pub id : Str
  pub title : Str
  pub worktree_id : Option Str

abbrev pub same_worktree : Option Str → Option Str → Bool
same_worktree none none = true
same_worktree (some a) (some b) = a === b
same_worktree _ _ = false

-- The key has a worktree, and the store has none.
abbrev pub is_behind : Str → Option Str → Bool
is_behind key wid = includes key (codes "::") && (truthy (scope_of_key key).1 && not (is_set wid))

pub record ScopeRequest : Type 0 where
  pub project_id : Str
  pub worktree_id : Option Str
  pub key : Str

abbrev pub request_of : Str → Option Str → Option Str → Option ScopeRequest
request_of pid wid none = none
request_of pid wid (some key) =
    if is_behind key wid || not (truthy key)
    then none
    else some (record { project_id = pid; worktree_id = wid; key = key })

-- Where there is a request the chats of its project are asked for.
unfoldable pub refresh_scope_chats_begin : App → App × Option ScopeRequest
refresh_scope_chats_begin a =
    if is_set a.state.selected_project_id
    then elim a.state.selected_project_id [
      | none ↦ (a, none)
      | some pid ↦ (a, request_of pid (current_worktree_id a.state) (current_scope_key a.state))
    ]
    else (set_scope_chats [] none a, none)

abbrev pub chat_tabs_of : List UnifiedTab → List ChatTab
chat_tabs_of [] = []
chat_tabs_of (chat id title draft ∷ ts) =
    record { id = id; title = title; draft = draft } ∷ chat_tabs_of ts
chat_tabs_of (_ ∷ ts) = chat_tabs_of ts

-- `new Map(beChats.map((c) => [c.id, c])).get(id)`: the last chat with the id.
abbrev pub chat_with : Str → List ChatSummary → Option ChatSummary
chat_with id [] = none
chat_with id (c ∷ cs) = elim (chat_with id cs) [
  | some d ↦ some d
  | none ↦ if c.id === id then some c else none
]

abbrev pub seed : ChatSummary → ChatTab
seed c = record { id = c.id; title = c.title; draft = none }

-- An empty draft is dropped.
abbrev pub own_draft : Option Str → Option Str
own_draft none = none
own_draft (some d) = if truthy d then some d else none

-- A tab whose chat is gone is dropped; another gets the title of the server.
abbrev pub retitled : ChatTab → Option ChatSummary → List ChatTab
retitled t none = []
retitled t (some c) = record { id = t.id; title = c.title; draft = own_draft t.draft } ∷ []

abbrev pub reconcile_tabs : List ChatSummary → List ChatTab → List ChatTab
reconcile_tabs be [] = []
reconcile_tabs be (t ∷ ts) = retitled t (chat_with t.id be) ++ reconcile_tabs be ts

abbrev pub seeded : Bool → List ChatSummary → Option (List ChatTab)
seeded hydrated [] = if hydrated then none else some []
seeded hydrated (c ∷ cs) = some (map seed (c ∷ cs))

-- The list that the scope gets, where it gets one: the chats of the server where it has no chat
-- tab, and else its own tabs.
unfoldable pub chats_to_set : List ChatSummary → Bool → List ChatTab → Option (List ChatTab)
chats_to_set be hydrated [] = seeded hydrated be
chats_to_set be hydrated (t ∷ ts) = some (reconcile_tabs be (t ∷ ts))

abbrev pub tabs_of : Option Scope → List UnifiedTab
tabs_of none = []
tabs_of (some s) = s.tabs

abbrev pub is_hydrated : Option Scope → Bool
is_hydrated none = false
is_hydrated (some s) = s.chats_hydrated

abbrev pub is_current : Str → Option Str → Bool
is_current key none = false
is_current key (some now) = now === key

abbrev pub set_if : Option (List ChatTab) → Str → App → App
set_if none key a = a
set_if (some chats) key a = set_scope_chats chats (some key) a

-- A failed answer goes to the error line of the pane.
unfoldable pub refresh_scope_chats_finish : ScopeRequest → Answer (List ChatSummary) → App → App
unfolding chats_to_set
refresh_scope_chats_finish r (failed message) a = a
refresh_scope_chats_finish r (ok all) a =
    if is_current r.key (current_scope_key a.state)
    then (let be = filter (λ (c : ChatSummary). same_worktree c.worktree_id r.worktree_id) all in
        let scope = current_scope a.state in
        set_if (chats_to_set be (is_hydrated scope) (chat_tabs_of (tabs_of scope))) r.key a)
    else a
