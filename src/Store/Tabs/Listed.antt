-- ===== src/Store/Tabs/Listed.antt =====
-- The chat tabs after `setScopeChats` of apps/web/src/core/stores/app.ts, and its invariant.
use agentgrove.Base.{
  ===_iff, ===_refl, All, All-append, All-filter, All-update_first, Bool, Bool-cases, List, Option,
  Str, [], any, ap, append_assoc, arith, false, false≢true, filter, foldl, head?, inl, inr, none,
  not, refl, some, subst, sym, true, truthy, ◌&&◌, ◌++◌, ◌===◌, ◌||◌, ◌∙◌, ◌∷◌, ◌≡◌,
}
use agentgrove.Store.Types.{
  ChatTab, Scope, UnifiedTab, chat, db, editor, has_chat_id, has_tab_id, is_chat_tab, tab_id,
  terminal,
}
use agentgrove.Store.Keys.{is_set}
use agentgrove.Store.Tabs.{
  chat_tab, first_if_idle, has_chat, id_of, is_id, put_chat, refocus, retitle, set_scope_chats_in,
}
use agentgrove.Store.Tabs.Valid.{
  All-differ, Differs, DistinctTabs, DistinctTabs-append, IsFocused, IsValid, distinct_of_ids,
  ids-update_first, tab_id-retitle,
}
use agentgrove.Store.Tabs.Chats.{IsClear, IsListed}

-- The tests that the list decides, kept for every tab through the loop.
abbrev IsSorted : List ChatTab → List UnifiedTab → Type 0
IsSorted chats = All (λ t. IsListed chats t × IsClear chats t)

retitle_sorted :
    (chats : List ChatTab) (title : Str) (t : UnifiedTab)
    → IsListed chats t × IsClear chats t
    → IsListed chats (retitle title t) × IsClear chats (retitle title t)
retitle_sorted chats title (chat id old draft) h = h
retitle_sorted chats title (terminal id cwd label) h = h
retitle_sorted chats title (editor id path label) h = h
retitle_sorted chats title (db id label) h = h

put_chat-IsSorted :
    (chats : List ChatTab) (all_new : Bool) (active : Option Str) (ts : List UnifiedTab)
    (c : ChatTab)
    → has_chat chats c.id ≡ true
    → IsSorted chats ts
    → IsSorted chats (put_chat all_new active ts c)
unfolding put_chat
put_chat-IsSorted chats all_new active ts c m h = elim (Bool-cases (any (has_chat_id c.id) ts)) [
  | inl e ↦ rw e (
      All-update_first (λ t. IsListed chats t × IsClear chats t) (has_chat_id c.id)
        (retitle c.title) (retitle_sorted chats c.title) ts h)
  | inr e ↦ rw e (elim (Bool-cases (all_new || is_id active c.id)) [
    | inl k ↦ rw k (
        All-append (λ t. IsListed chats t × IsClear chats t) ts (chat_tab c ∷ []) h
          ((λ _. m, λ x. cc), tt))
    | inr k ↦ rw k h
  ])
]

foldl-IsSorted :
    (chats : List ChatTab) (all_new : Bool) (active : Option Str) (cs : List ChatTab)
    (ts : List UnifiedTab)
    → All (λ (c : ChatTab). has_chat chats c.id ≡ true) cs
    → IsSorted chats ts
    → IsSorted chats (foldl (put_chat all_new active) ts cs)
foldl-IsSorted chats all_new active [] ts m h = h
foldl-IsSorted chats all_new active (c ∷ cs) ts m h =
    foldl-IsSorted chats all_new active cs (put_chat all_new active ts c) m.1
      (put_chat-IsSorted chats all_new active ts c m.0 h)

-- Every chat is in its own list.
has_chat-append :
    (pre : List ChatTab) (c : ChatTab) (rest : List ChatTab)
    → has_chat (pre ++ c ∷ rest) c.id ≡ true
has_chat-append [] c rest = rw ===_refl refl
has_chat-append (p ∷ pre) c rest = ground (arith, has_chat-append pre c rest)

All-listed_from :
    (pre cs : List ChatTab) → All (λ (c : ChatTab). has_chat (pre ++ cs) c.id ≡ true) cs
All-listed_from pre [] = tt
All-listed_from pre (c ∷ cs) = (
  has_chat-append pre c cs,
  subst (λ (l : List ChatTab). All (λ (d : ChatTab). has_chat l d.id ≡ true) cs)
      (append_assoc pre (c ∷ []) cs) (All-listed_from (pre ++ c ∷ []) cs),
)

kept-IsSorted :
    (chats : List ChatTab) (ts : List UnifiedTab)
    → All (IsClear chats) ts
    → IsSorted chats (filter (λ t. not (is_chat_tab t) || has_chat chats (tab_id t)) ts)
kept-IsSorted chats [] h = tt
kept-IsSorted chats (t ∷ ts) h =
    elim (Bool-cases (not (is_chat_tab t) || has_chat chats (tab_id t))) [
      | inl e ↦ rw e ((λ k. ground arith, h.0), kept-IsSorted chats ts h.1)
      | inr e ↦ rw e (kept-IsSorted chats ts h.1)
    ]

-- After the replacement every chat tab of the strip is one of the list.
pub set_scope_chats_in-IsListed :
    (chats : List ChatTab) (s : Scope)
    → All (IsClear chats) s.tabs
    → All (λ t. IsListed chats t × IsClear chats t) (set_scope_chats_in chats s).tabs
unfolding set_scope_chats_in
set_scope_chats_in-IsListed chats s h =
    foldl-IsSorted chats _ s.active_tab chats _ (All-listed_from [] chats)
      (kept-IsSorted chats s.tabs h)

no_tab :
    (chats : List ChatTab) (id : Str) (ts : List UnifiedTab)
    → has_chat chats id ≡ true
    → IsSorted chats ts
    → any (has_chat_id id) ts ≡ false
    → any (has_tab_id id) ts ≡ false
no_tab chats id [] m h e = refl
no_tab chats id (t ∷ ts) m h e = elim (Bool-cases (tab_id t === id)) [
  | inl k ↦
      let same : tab_id t ≡ id = (===_iff (tab_id t) id).0 k in
      let other : is_chat_tab t ≡ false = ground arith in
      let clear : has_chat chats (tab_id t) ≡ false = h.0.1 other in
      absurd (false≢true (sym clear ∙ ap (has_chat chats) same ∙ m))
  | inr k ↦ rw k (no_tab chats id ts m h.1 (ground arith))
]

put_chat_distinct :
    (chats : List ChatTab) (all_new : Bool) (active : Option Str) (ts : List UnifiedTab)
    (c : ChatTab)
    → has_chat chats c.id ≡ true
    → IsSorted chats ts
    → DistinctTabs ts
    → DistinctTabs (put_chat all_new active ts c)
unfolding put_chat
put_chat_distinct chats all_new active ts c m h d = elim (Bool-cases (any (has_chat_id c.id) ts)) [
  | inl e ↦ rw e (
      distinct_of_ids ts _
        (ids-update_first (has_chat_id c.id) (retitle c.title) (tab_id-retitle c.title) ts) d)
  | inr e ↦ rw e (elim (Bool-cases (all_new || is_id active c.id)) [
    | inl k ↦ rw k (
        DistinctTabs-append ts (chat_tab c) d
          (All-differ (chat_tab c) ts (no_tab chats c.id ts m h e)))
    | inr k ↦ rw k d
  ])
]

foldl_distinct :
    (chats : List ChatTab) (all_new : Bool) (active : Option Str) (cs : List ChatTab)
    (ts : List UnifiedTab)
    → All (λ (c : ChatTab). has_chat chats c.id ≡ true) cs
    → IsSorted chats ts
    → DistinctTabs ts
    → DistinctTabs (foldl (put_chat all_new active) ts cs)
foldl_distinct chats all_new active [] ts m h d = d
foldl_distinct chats all_new active (c ∷ cs) ts m h d =
    foldl_distinct chats all_new active cs (put_chat all_new active ts c) m.1
      (put_chat-IsSorted chats all_new active ts c m.0 h)
      (put_chat_distinct chats all_new active ts c m.0 h d)

DistinctTabs-filter :
    (f : UnifiedTab → Bool) (ts : List UnifiedTab) → DistinctTabs ts → DistinctTabs (filter f ts)
DistinctTabs-filter f [] h = tt
DistinctTabs-filter f (t ∷ ts) h = elim (Bool-cases (f t)) [
  | inl e ↦ rw e (All-filter (Differs t) f ts h.0, DistinctTabs-filter f ts h.1)
  | inr e ↦ rw e (DistinctTabs-filter f ts h.1)
]

IsFocused-head : (tabs : List UnifiedTab) → IsFocused tabs (id_of (head? tabs))
IsFocused-head [] = tt
IsFocused-head (t ∷ tabs) = rw ===_refl refl

-- Whatever had the focus, a tab that is there has it afterwards, or none has.
IsFocused-refocus :
    (tabs : List UnifiedTab) (active : Option Str)
    → is_id active [] ≡ false
    → IsFocused tabs (refocus tabs active)
IsFocused-refocus tabs none h = tt
IsFocused-refocus tabs (some []) h = absurd (false≢true (sym h ∙ ===_refl []))
IsFocused-refocus tabs (some (c ∷ a)) h = elim (Bool-cases (any (has_tab_id (c ∷ a)) tabs)) [
  | inl e ↦ rw e e
  | inr e ↦ rw e (IsFocused-head tabs)
]

refocus_self :
    (t : UnifiedTab) (tabs : List UnifiedTab)
    → IsFocused (t ∷ tabs) (refocus (t ∷ tabs) (some (tab_id t)))
refocus_self t tabs =
    elim (Bool-cases (truthy (tab_id t) && not (any (has_tab_id (tab_id t)) (t ∷ tabs)))) [
      | inl e ↦ rw e (IsFocused-head (t ∷ tabs))
      | inr e ↦ rw e (rw ===_refl refl)
    ]

IsFocused-first_if_idle :
    (all_new : Bool) (tabs : List UnifiedTab) (active : Option Str)
    → is_id active [] ≡ false
    → IsFocused tabs (refocus tabs (first_if_idle all_new tabs active))
IsFocused-first_if_idle all_new [] active h = IsFocused-refocus [] active h
IsFocused-first_if_idle all_new (t ∷ tabs) active h =
    elim (Bool-cases (all_new && not (is_set active))) [
      | inl e ↦ rw e (refocus_self t tabs)
      | inr e ↦ rw e (IsFocused-refocus (t ∷ tabs) active h)
    ]

-- Replacing the chats of a scope keeps the strip valid, unless the focus was on the empty id or a
-- tab of another kind has the id of a chat.
pub set_scope_chats_in-IsValid :
    (chats : List ChatTab) (s : Scope)
    → All (IsClear chats) s.tabs
    → is_id s.active_tab [] ≡ false
    → IsValid s
    → IsValid (set_scope_chats_in chats s)
unfolding set_scope_chats_in
set_scope_chats_in-IsValid chats s h a v = record {
  distinct =
      foldl_distinct chats _ s.active_tab chats _ (All-listed_from [] chats)
        (kept-IsSorted chats s.tabs h) (DistinctTabs-filter _ s.tabs v.distinct);
  focused = IsFocused-first_if_idle _ _ s.active_tab a;
}
