-- ===== src/Store/Layout/OldTabs.antt =====
-- The tabs and the focus that a saved scope stands for, and the migration of the layout of the time
-- before the strip of tabs (apps/web/src/core/stores/app.ts).
use agentgrove.Base.{
  List, Option, Str, [], ap, ap₂, codes, false, false≢true, head?, if◌then◌else◌, last_part, map,
  none, refl, some, sym, ◌++◌, ◌||◌, ◌∙◌, ◌∷◌, ◌≡◌,
}
use agentgrove.Store.Types.{ChatTab, Scope, TerminalTab, UnifiedTab, chat, editor, terminal}
use agentgrove.Store.Keys.{is_set}
use agentgrove.Store.Tabs.{chat_tab, id_of, is_nonempty, kept_draft}
use agentgrove.Store.Layout.{
  Blob, editor_tab, editor_tabs, file_id_of, is_old, migrate_tabs, old_focus, old_tabs, or_nil,
  terminal_tab,
}

abbrev pub file_tabs : Option Str → List UnifiedTab
file_tabs none = []
file_tabs (some []) = []
file_tabs (some (c ∷ cs)) = editor (codes "file:" ++ c ∷ cs) (c ∷ cs) (last_part [] (c ∷ cs)) ∷ []

-- An empty draft is none.
abbrev pub nonempty_draft : Option Str → Option Str
nonempty_draft none = none
nonempty_draft (some []) = none
nonempty_draft (some (c ∷ cs)) = some (c ∷ cs)

-- The tabs that the blob stands for: its strip, or where it has none a tab for each chat, each
-- terminal and the open file of the old layout.
abbrev pub old_strip :
    Option (List ChatTab) → Option (List TerminalTab) → Option Str → List UnifiedTab
old_strip chats terminals file =
    map (λ (c : ChatTab). chat c.id c.title (nonempty_draft c.draft)) (or_nil chats)
    ++ (map (λ (t : TerminalTab). terminal t.id t.cwd t.label) (or_nil terminals) ++ file_tabs file)

abbrev pub or_else : List UnifiedTab → List UnifiedTab → List UnifiedTab
or_else [] old = old
or_else (t ∷ ts) old = t ∷ ts

abbrev pub strip_of : Blob → List UnifiedTab
strip_of blob = or_else (or_nil blob.tabs) (old_strip blob.chats blob.terminals blob.active_editor)

-- `a || b` on an id that may be missing or empty.
abbrev pub set_or : Option Str → Option Str → Option Str
set_or none b = b
set_or (some []) b = b
set_or (some (c ∷ cs)) b = some (c ∷ cs)

abbrev pub file_focus : Option Str → Option Str
file_focus none = none
file_focus (some []) = none
file_focus (some (c ∷ cs)) = some (codes "file:" ++ c ∷ cs)

-- The tab that the blob has the focus on: in the old layout that of the chat, the terminal or the
-- file that is set, the first of these that is, and else the first tab.
abbrev pub focus_or : List UnifiedTab → List UnifiedTab → Option Str → Option Str → Option Str
focus_or (t ∷ ts) old active set = active
focus_or [] [] active set = active
focus_or [] (t ∷ ts) active set = set_or set (id_of (some t))

abbrev pub focus_of : Blob → Option Str
focus_of blob =
    focus_or (or_nil blob.tabs) (old_strip blob.chats blob.terminals blob.active_editor)
      blob.active_tab
      (set_or blob.active_chat (set_or blob.active_terminal (file_focus blob.active_editor)))

file_tabs_lem : (file : Option Str) → editor_tabs file ≡ file_tabs file
unfolding editor_tab
file_tabs_lem none = refl
file_tabs_lem (some []) = refl
file_tabs_lem (some (c ∷ cs)) = refl

nonempty_draft_lem : (d : Option Str) → kept_draft d ≡ nonempty_draft d
nonempty_draft_lem none = refl
nonempty_draft_lem (some []) = refl
nonempty_draft_lem (some (c ∷ cs)) = refl

chat_tabs_lem :
    (cs : List ChatTab)
    → map chat_tab cs ≡ map (λ (c : ChatTab). chat c.id c.title (nonempty_draft c.draft)) cs
chat_tabs_lem [] = refl
chat_tabs_lem (c ∷ cs) =
    ap₂ (λ (d : Option Str) (ts : List UnifiedTab). chat c.id c.title d ∷ ts)
      (nonempty_draft_lem c.draft) (chat_tabs_lem cs)

old_tabs_lem : (s : Scope) → old_tabs s ≡ old_strip s.chats s.terminals s.active_editor
unfolding old_tabs
old_tabs_lem s =
    ap₂ (λ (l r : List UnifiedTab). l ++ (map terminal_tab (or_nil s.terminals) ++ r))
      (chat_tabs_lem (or_nil s.chats)) (file_tabs_lem s.active_editor)

is_nonempty-old_strip :
    (chats : Option (List ChatTab)) (terminals : Option (List TerminalTab)) (file : Option Str)
    → (is_nonempty (or_nil chats) || is_nonempty (or_nil terminals) || is_set file)
      ≡ is_nonempty (old_strip chats terminals file)
is_nonempty-old_strip (some (c ∷ cs)) terminals file = refl
is_nonempty-old_strip (some []) (some (t ∷ ts)) file = refl
is_nonempty-old_strip none (some (t ∷ ts)) file = refl
is_nonempty-old_strip (some []) (some []) none = refl
is_nonempty-old_strip (some []) (some []) (some []) = refl
is_nonempty-old_strip (some []) (some []) (some (c ∷ cs)) = refl
is_nonempty-old_strip (some []) none none = refl
is_nonempty-old_strip (some []) none (some []) = refl
is_nonempty-old_strip (some []) none (some (c ∷ cs)) = refl
is_nonempty-old_strip none (some []) none = refl
is_nonempty-old_strip none (some []) (some []) = refl
is_nonempty-old_strip none (some []) (some (c ∷ cs)) = refl
is_nonempty-old_strip none none none = refl
is_nonempty-old_strip none none (some []) = refl
is_nonempty-old_strip none none (some (c ∷ cs)) = refl

pub nonempty_or_nil : (ts : List UnifiedTab) → is_nonempty ts ≡ false → ts ≡ []
nonempty_or_nil [] h = refl
nonempty_or_nil (t ∷ ts) h = absurd (false≢true (sym h))

-- The chain of the source, as one of `||`.
old_focus_lem :
    (chat_id terminal_id file first : Option Str)
    → (if is_set chat_id
        then chat_id
        else (if is_set terminal_id
            then terminal_id
            else (if is_set file then file_id_of file else first)))
      ≡ set_or (set_or chat_id (set_or terminal_id (file_focus file))) first
old_focus_lem (some (c ∷ cs)) t f d = refl
old_focus_lem (some []) (some (c ∷ cs)) f d = refl
old_focus_lem none (some (c ∷ cs)) f d = refl
old_focus_lem (some []) (some []) none d = refl
old_focus_lem (some []) (some []) (some []) d = refl
old_focus_lem (some []) (some []) (some (c ∷ cs)) d = refl
old_focus_lem (some []) none none d = refl
old_focus_lem (some []) none (some []) d = refl
old_focus_lem (some []) none (some (c ∷ cs)) d = refl
old_focus_lem none (some []) none d = refl
old_focus_lem none (some []) (some []) d = refl
old_focus_lem none (some []) (some (c ∷ cs)) d = refl
old_focus_lem none none none d = refl
old_focus_lem none none (some []) d = refl
old_focus_lem none none (some (c ∷ cs)) d = refl

-- Without tabs the scope gets those of the old layout.
migrate_old :
    (s : Scope) (old : List UnifiedTab)
    → s.tabs ≡ []
    → old_tabs s ≡ old
    → is_old s ≡ is_nonempty old
    → ((migrate_tabs s).tabs ≡ old)
      × ((migrate_tabs s).active_tab
          ≡ focus_or [] old s.active_tab
              (set_or s.active_chat (set_or s.active_terminal (file_focus s.active_editor))))
unfolding migrate_tabs old_focus
migrate_old s [] e o h = rw (migrate_tabs, h) (e, refl)
migrate_old s (t ∷ ts) e o h =
    rw (migrate_tabs, h)
      (
        o,
        old_focus_lem s.active_chat s.active_terminal s.active_editor (id_of (head? (old_tabs s)))
            ∙ ap
                (λ (l : List UnifiedTab).
                  set_or
                    (set_or s.active_chat (set_or s.active_terminal (file_focus s.active_editor)))
                    (id_of (head? l)))
                o,
      )

-- The scope of the blob after the migration to one strip of tabs.
pub migrate_tabs-strip :
    (s : Scope) (tabs : List UnifiedTab)
    → s.tabs ≡ tabs
    → ((migrate_tabs s).tabs ≡ or_else tabs (old_strip s.chats s.terminals s.active_editor))
      × ((migrate_tabs s).active_tab
          ≡ focus_or tabs
              (old_strip s.chats s.terminals s.active_editor)
              s.active_tab
              (set_or s.active_chat (set_or s.active_terminal (file_focus s.active_editor))))
unfolding migrate_tabs is_old old_focus
migrate_tabs-strip s (t ∷ ts) e = rw (migrate_tabs, is_old, e) (refl, refl)
migrate_tabs-strip s [] e =
    let old = old_strip s.chats s.terminals s.active_editor in
    let at : is_old s ≡ is_nonempty old =
      rw (is_old, e) (is_nonempty-old_strip s.chats s.terminals s.active_editor) in
    migrate_old s old e (old_tabs_lem s) at
