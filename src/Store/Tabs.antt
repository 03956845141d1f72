-- ===== src/Store/Tabs.antt =====
-- The tab strip of one scope: the updates that the actions of apps/web/src/core/stores/app.ts make
-- under `produce`.
pub mod Valid
pub mod Chats
pub mod Listed
use agentgrove.Base.{
  Bool, List, Option, Str, [], any, erase_idx, false, filter, find_index, foldl, get_elem?, head?,
  if◌then◌else◌, length, min, none, not, some, true, truthy, update_first, ℕ, ◌&&◌, ◌++◌, ◌-◌,
  ◌===◌, ◌||◌, ◌∷◌,
}
use agentgrove.Store.Types.{
  ChatTab, Scope, UnifiedTab, chat, db, editor, has_chat_id, has_tab_id, is_chat_tab, tab_id,
  terminal,
}
use agentgrove.Store.Keys.{is_set}

-- `addTab`: a tab that is open already is only activated.
unfoldable pub open_tab : UnifiedTab → Scope → Scope
open_tab tab s =
    if any (has_tab_id (tab_id tab)) s.tabs
    then record s { active_tab = some (tab_id tab) }
    else record s { tabs = s.tabs ++ tab ∷ []; active_tab = some (tab_id tab) }

abbrev pub id_of : Option UnifiedTab → Option Str
id_of none = none
id_of (some t) = some (tab_id t)

-- `o === id`.
abbrev pub is_id : Option Str → Str → Bool
is_id none id = false
is_id (some a) id = a === id

-- The tab at `Math.min(i, tabs.length - 1)`; the empty strip has none.
unfoldable pub neighbour : ℕ → List UnifiedTab → Option Str
neighbour i tabs = id_of (get_elem? tabs (min i (length tabs - 1)))

-- The second part says whether a tab was removed.
unfoldable pub close_at : Option ℕ → Str → Scope → Scope × Bool
unfolding neighbour
close_at none id s = (s, false)
close_at (some i) id s =
    let tabs = erase_idx s.tabs i in
    (
      record s {
        tabs = tabs;
        active_tab = if is_id s.active_tab id then neighbour i tabs else s.active_tab;
      },
      true,
    )

unfoldable pub close_tab_in : Str → Scope → Scope × Bool
unfolding close_at
close_tab_in id s = close_at (find_index (has_tab_id id) s.tabs) id s

abbrev pub retitle : Str → UnifiedTab → UnifiedTab
retitle title (chat id old draft) = chat id title draft
retitle title (terminal id cwd label) = terminal id cwd title
retitle title (editor id path label) = editor id path title
retitle title (db id label) = db id title

unfoldable pub rename_tab_in : Str → Str → Scope → Scope
rename_tab_in id title s = record s { tabs = update_first (has_tab_id id) (retitle title) s.tabs }

-- An empty draft is removed.
abbrev pub draft_of : Str → Option Str
draft_of [] = none
draft_of (c ∷ s) = some (c ∷ s)

abbrev pub set_draft : Str → UnifiedTab → UnifiedTab
set_draft draft (chat id title old) = chat id title (draft_of draft)
set_draft draft t = t

unfoldable pub set_draft_in : Str → Str → Scope → Scope
set_draft_in id draft s = record s { tabs = update_first (has_chat_id id) (set_draft draft) s.tabs }

abbrev pub set_id : Str → UnifiedTab → UnifiedTab
set_id new (chat id title draft) = chat new title draft
set_id new (terminal id cwd label) = terminal new cwd label
set_id new (editor id path label) = editor new path label
set_id new (db id label) = db new label

unfoldable pub replace_id_in : Str → Str → Scope → Scope
replace_id_in old new s = record s {
  tabs = update_first (has_tab_id old) (set_id new) s.tabs;
  active_tab = if is_id s.active_tab old then some new else s.active_tab;
}

-- `...(c.draft ? { draft: c.draft } : {})`.
abbrev pub kept_draft : Option Str → Option Str
kept_draft none = none
kept_draft (some s) = draft_of s

abbrev pub chat_tab : ChatTab → UnifiedTab
chat_tab c = chat c.id c.title (kept_draft c.draft)

abbrev pub has_chat : List ChatTab → Str → Bool
has_chat chats id = any (λ (c : ChatTab). c.id === id) chats

-- One round of the loop of `setScopeChats`.
unfoldable pub put_chat : Bool → Option Str → List UnifiedTab → ChatTab → List UnifiedTab
put_chat add_all active tabs c =
    if any (has_chat_id c.id) tabs
    then update_first (has_chat_id c.id) (retitle c.title) tabs
    else (if add_all || is_id active c.id then tabs ++ chat_tab c ∷ [] else tabs)

abbrev pub is_nonempty {ℓ} : {A : Type ℓ} → List A → Bool
is_nonempty [] = false
is_nonempty (x ∷ xs) = true

-- `if (shouldAddAll && !s.activeTab && s.tabs.length > 0) s.activeTab = s.tabs[0]!.id`.
abbrev pub first_if_idle : Bool → List UnifiedTab → Option Str → Option Str
first_if_idle add_all [] active = active
first_if_idle add_all (t ∷ tabs) active =
    if add_all && not (is_set active) then some (tab_id t) else active

-- A focus on a tab that is gone moves to the first tab.
abbrev pub refocus : List UnifiedTab → Option Str → Option Str
refocus tabs none = none
refocus tabs (some a) =
    if truthy a && not (any (has_tab_id a) tabs) then id_of (head? tabs) else some a

unfoldable pub put_chats : Bool → List ChatTab → Scope → Scope
unfolding put_chat
put_chats add_all chats s =
    let tabs = foldl (put_chat add_all s.active_tab) s.tabs chats in
    record s {
      tabs = tabs;
      active_tab = refocus tabs (first_if_idle add_all tabs s.active_tab);
      chats_hydrated = true;
    }

-- Chat tabs that the list does not have go first.
unfoldable pub set_scope_chats_in : List ChatTab → Scope → Scope
unfolding put_chats
set_scope_chats_in chats s =
    let kept = filter (λ t. not (is_chat_tab t) || has_chat chats (tab_id t)) s.tabs in
    put_chats (not (any is_chat_tab kept) && is_nonempty chats) chats (record s { tabs = kept })
