-- ===== src/Store/Tabs/Chats.antt =====
-- What `setScopeChats` of apps/web/src/core/stores/app.ts does to a tab strip.
use agentgrove.Base.{
  Bool, Bool-cases, List, Option, Str, [], any, ap, false, filter, foldl, inl, inr, not, refl, true,
  update_first, ◌++◌, ◌===◌, ◌||◌, ◌∙◌, ◌∷◌, ◌≡◌,
}
use agentgrove.Store.Types.{
  ChatTab, Scope, UnifiedTab, chat, db, editor, has_chat_id, is_chat_tab, tab_id, terminal,
}
use agentgrove.Store.Tabs.{chat_tab, has_chat, is_id, put_chat, retitle, set_scope_chats_in}

-- The tabs of the other kinds.
abbrev pub others : List UnifiedTab → List UnifiedTab
others = filter (λ t. not (is_chat_tab t))

-- A chat tab has a chat of the list.
abbrev pub IsListed : List ChatTab → UnifiedTab → Type 0
IsListed chats t = is_chat_tab t ≡ true → has_chat chats (tab_id t) ≡ true

-- No tab of another kind has the id of a chat of the list.
abbrev pub IsClear : List ChatTab → UnifiedTab → Type 0
IsClear chats t = is_chat_tab t ≡ false → has_chat chats (tab_id t) ≡ false

others-append : (ts : List UnifiedTab) (c : ChatTab) → others (ts ++ chat_tab c ∷ []) ≡ others ts
others-append [] c = refl
others-append (t ∷ ts) c = elim (Bool-cases (is_chat_tab t)) [
  | inl e ↦ rw e (others-append ts c)
  | inr e ↦ rw e (ap (t ∷◌) (others-append ts c))
]

is_chat_tab-retitle : (title : Str) (t : UnifiedTab) → is_chat_tab (retitle title t) ≡ is_chat_tab t
is_chat_tab-retitle title (chat id old draft) = refl
is_chat_tab-retitle title _ = refl

others-update_first :
    (id title : Str) (ts : List UnifiedTab)
    → others (update_first (has_chat_id id) (retitle title) ts) ≡ others ts
others-update_first id title [] = refl
others-update_first id title (chat i old draft ∷ ts) = elim (Bool-cases (i === id)) [
  | inl e ↦ rw e refl
  | inr e ↦ rw e (others-update_first id title ts)
]
others-update_first id title (terminal i cwd label ∷ ts) =
    ap (terminal i cwd label ∷◌) (others-update_first id title ts)
others-update_first id title (editor i path label ∷ ts) =
    ap (editor i path label ∷◌) (others-update_first id title ts)
others-update_first id title (db i label ∷ ts) =
    ap (db i label ∷◌) (others-update_first id title ts)

others-put_chat :
    (all_new : Bool) (active : Option Str) (ts : List UnifiedTab) (c : ChatTab)
    → others (put_chat all_new active ts c) ≡ others ts
unfolding put_chat
others-put_chat all_new active ts c = elim (Bool-cases (any (has_chat_id c.id) ts)) [
  | inl e ↦ rw e (others-update_first c.id c.title ts)
  | inr e ↦ rw e (elim (Bool-cases (all_new || is_id active c.id)) [
    | inl k ↦ rw k (others-append ts c)
    | inr k ↦ rw k refl
  ])
]

others-foldl :
    (all_new : Bool) (active : Option Str) (chats : List ChatTab) (ts : List UnifiedTab)
    → others (foldl (put_chat all_new active) ts chats) ≡ others ts
others-foldl all_new active [] ts = refl
others-foldl all_new active (c ∷ chats) ts =
    others-foldl all_new active chats (put_chat all_new active ts c)
    ∙ others-put_chat all_new active ts c

others-kept :
    (chats : List ChatTab) (ts : List UnifiedTab)
    → others (filter (λ t. not (is_chat_tab t) || has_chat chats (tab_id t)) ts) ≡ others ts
others-kept chats [] = refl
others-kept chats (t ∷ ts) = elim (Bool-cases (is_chat_tab t)) [
  | inl e ↦ elim (Bool-cases (has_chat chats (tab_id t))) [
    | inl k ↦ rw (e, k) (rw e (others-kept chats ts))
    | inr k ↦ rw (e, k) (others-kept chats ts)
  ]
  | inr e ↦ rw e (rw e (ap (t ∷◌) (others-kept chats ts)))
]

-- Replacing the chats of a scope leaves its terminals, editors and database tab alone, in their
-- order.
pub set_scope_chats_in-others :
    (chats : List ChatTab) (s : Scope) → others (set_scope_chats_in chats s).tabs ≡ others s.tabs
unfolding set_scope_chats_in
set_scope_chats_in-others chats s = others-foldl _ s.active_tab chats _ ∙ others-kept chats s.tabs
