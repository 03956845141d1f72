-- ===== src/Store/Layout/Loaded.antt =====
-- Loading a saved scope with the migrations of old blobs: which tabs it has and where its focus is
-- (apps/web/src/core/stores/app.ts).
use agentgrove.Base.{List, Option, Str, [], any, codes, false, head?, some, ◌∷◌, ◌≡◌, ◌⊎◌}
use agentgrove.Store.Types.{Scope, UnifiedTab, db, has_tab_id}
use agentgrove.Store.Tabs.{id_of}
use agentgrove.Store.Layout.{Blob, blob_of, hydrate_scope, or_false}
use agentgrove.Store.Layout.OldTabs.{focus_of, strip_of}

-- A database tab of the time when there were several.
abbrev pub IsOldDb : UnifiedTab → Type 0
IsOldDb (db id label) = ¬ (id ≡ codes "db")
IsOldDb _ = ⊥

-- The second list is the first without such tabs.
pub data IsWithoutOldDbs : List UnifiedTab → List UnifiedTab → Type 0 where
  no_tabs : IsWithoutOldDbs [] []
  kept :
      {t : UnifiedTab} {ts us : List UnifiedTab}
      → ¬ IsOldDb t
      → IsWithoutOldDbs ts us
      → IsWithoutOldDbs (t ∷ ts) (t ∷ us)
  dropped :
      {t : UnifiedTab} {ts us : List UnifiedTab}
      → IsOldDb t
      → IsWithoutOldDbs ts us
      → IsWithoutOldDbs (t ∷ ts) us

-- The focus of the scope is that of the blob, or, where that is on a tab which is not in the scope,
-- on the first tab.
abbrev pub IsFocused : Option Str → Scope → Type 0
IsFocused focus s =
    (s.active_tab ≡ focus)
    ⊎ ((a : Str) × (focus ≡ some a)
        × (any (has_tab_id a) s.tabs ≡ false)
        × (s.active_tab ≡ id_of (head? s.tabs)))

-- What a scope is that was loaded from the blob.
pub record IsLoaded (blob : Blob) (s : Scope) : Type 0 where
  pub tabs : IsWithoutOldDbs (strip_of blob) s.tabs
  pub focus : IsFocused (focus_of blob) s
  pub pane : s.active_pane ≡ blob.active_pane
  pub chats : s.chats ≡ blob.chats
  pub terminals : s.terminals ≡ blob.terminals
  pub hydrated : s.chats_hydrated ≡ or_false blob.chats_hydrated
  pub again : (s.tabs ≡ []) ⊎ (hydrate_scope (blob_of s) ≡ s)

-- The fields that the migrations leave as they are.
abbrev HasRestOf : Scope → Scope → Type 0
HasRestOf s t =
    (t.active_pane ≡ s.active_pane)
    × (t.chats ≡ s.chats)
    × (t.terminals ≡ s.terminals)
    × (t.chats_hydrated ≡ s.chats_hydrated)
