-- ===== src/Pane/Queue/Cached.antt =====
-- The objects that the cache of the queue holds (apps/web/src/shells/desktop/panes/ChatPane.tsx).
use agentgrove.Pane.Queue.Visible.{or_false}
use agentgrove.Pane.Queue.{
  QueueItem, QueueStatus, cancelled, done, has_item_id, keep_item, looks_same, pending, running,
  same_status,
}
use agentgrove.Base.{
  ===_iff, All, Bool, Bool-cases, Dict, List, Option-cases, Str, [], any, ap, false, false≢true,
  foldl, inl, inr, insert, lookup, lookup-insert, refl, some, some_inj, subst₂, sym, true, ◌&&◌,
  ◌===◌, ◌∙◌, ◌∷◌, ◌≡◌,
}
use agentgrove.Store.Actions.Lookup.{lookup-insert_self}
use agentgrove.Chat.Types.{done}
use agentgrove.Pane.Queue.{
  QueueItem, QueueStatus, cancelled, done, has_item_id, keep_item, looks_same, pending, running,
  same_status,
}

-- An entry of the cache is the object of the item that its key names, and an item keeps its chat.
abbrev pub IsEntryOf : (Str → Str) → Str × QueueItem → Type 0
IsEntryOf chat_of (k, j) = (j.id ≡ k) × (j.chat_id ≡ chat_of k)

-- The cache has the item itself.
abbrev pub IsCached : Dict QueueItem → QueueItem → Type 0
IsCached cache i = lookup i.id cache ≡ some i

same_status_iff : (s t : QueueStatus) → same_status s t ≡ true → s ≡ t
same_status_iff pending pending e = refl
same_status_iff running running e = refl
same_status_iff done done e = refl
same_status_iff cancelled cancelled e = refl
same_status_iff pending running e = absurd (false≢true e)
same_status_iff pending done e = absurd (false≢true e)
same_status_iff pending cancelled e = absurd (false≢true e)
same_status_iff running pending e = absurd (false≢true e)
same_status_iff running done e = absurd (false≢true e)
same_status_iff running cancelled e = absurd (false≢true e)
same_status_iff done pending e = absurd (false≢true e)
same_status_iff done running e = absurd (false≢true e)
same_status_iff done cancelled e = absurd (false≢true e)
same_status_iff cancelled pending e = absurd (false≢true e)
same_status_iff cancelled running e = absurd (false≢true e)
same_status_iff cancelled done e = absurd (false≢true e)

and_true : (a b : Bool) → (a && b) ≡ true → (a ≡ true) × (b ≡ true)
and_true true b e = (refl, e)
and_true false b e = absurd (false≢true e)

-- An object with the id and the chat of an item that looks like it is the item.
looks_same_iff :
    (j i : QueueItem) → j.id ≡ i.id → j.chat_id ≡ i.chat_id → looks_same j i ≡ true → j ≡ i
looks_same_iff j i a c h =
    let (b, t) = and_true _ _ h in
    let (s, d) = and_true _ _ t in
    let body = (===_iff j.body i.body).0 b in
    let status = same_status_iff j.status i.status s in
    let created = (===_iff j.created_at i.created_at).0 d in
    λ k. record {
      id = a k;
      chat_id = c k;
      body = body k;
      status = status k;
      created_at = created k;
    }

module _ (chat_of : Str → Str) where
  All-insert :
      (i : QueueItem) (cache : Dict QueueItem)
      → i.chat_id ≡ chat_of i.id
      → All (IsEntryOf chat_of) cache
      → All (IsEntryOf chat_of) (insert i.id i cache)
  unfolding insert
  All-insert i [] c h = ((refl, c), tt)
  All-insert i ((k, j) ∷ m) c (p, h) = elim (Bool-cases (k === i.id)) [
    | inl e ↦
        let at : i.id ≡ k = sym ((===_iff k i.id).0 e) in
        rw (insert, e) ((at, c ∙ ap chat_of at), h)
    | inr e ↦ rw (insert, e) (p, All-insert i m c h)
  ]

  lookup-IsEntryOf :
      (k : Str) (cache : Dict QueueItem) {j : QueueItem}
      → All (IsEntryOf chat_of) cache
      → lookup k cache ≡ some j
      → IsEntryOf chat_of (k, j)
  unfolding lookup
  lookup-IsEntryOf k [] h e = cc
  lookup-IsEntryOf k ((n, i) ∷ m) {j} (p, h) e = elim (Bool-cases (n === k)) [
    | inl t ↦
        let same : i ≡ j = some_inj (sym (rw (lookup, t) refl) ∙ e) in
        let at : n ≡ k = (===_iff n k).0 t in
        subst₂ (λ (x : Str) (y : QueueItem). IsEntryOf chat_of (x, y)) at same p
    | inr t ↦ lookup-IsEntryOf k m h (sym (rw (lookup, t) refl) ∙ e)
  ]

  pub keep_item-IsEntryOf :
      (cache : Dict QueueItem) (i : QueueItem)
      → i.chat_id ≡ chat_of i.id
      → All (IsEntryOf chat_of) cache
      → All (IsEntryOf chat_of) (keep_item cache i)
  keep_item-IsEntryOf cache i c h = elim (Option-cases (lookup i.id cache)) [
    | inl e ↦ rw (keep_item, e) (All-insert i cache c h)
    | inr (j, e) ↦ elim (Bool-cases (looks_same j i)) [
      | inl t ↦ rw (keep_item, e, t) h
      | inr t ↦ rw (keep_item, e, t) (All-insert i cache c h)
    ]
  ]

  pub foldl-keep_item-IsEntryOf :
      (items : List QueueItem) (cache : Dict QueueItem)
      → All (λ (i : QueueItem). i.chat_id ≡ chat_of i.id) items
      → All (IsEntryOf chat_of) cache
      → All (IsEntryOf chat_of) (foldl keep_item cache items)
  foldl-keep_item-IsEntryOf [] cache c h = h
  foldl-keep_item-IsEntryOf (i ∷ is) cache (c, cs) h =
      foldl-keep_item-IsEntryOf is (keep_item cache i) cs (keep_item-IsEntryOf cache i c h)

  pub IsCached-keep_item :
      (cache : Dict QueueItem) (i : QueueItem)
      → i.chat_id ≡ chat_of i.id
      → All (IsEntryOf chat_of) cache
      → IsCached (keep_item cache i) i
  IsCached-keep_item cache i c h = elim (Option-cases (lookup i.id cache)) [
    | inl e ↦ rw (keep_item, e) (lookup-insert_self i.id i cache)
    | inr (j, e) ↦ elim (Bool-cases (looks_same j i)) [
      | inl t ↦
          let (a, b) = lookup-IsEntryOf i.id cache h e in
          rw (keep_item, e, t) (e ∙ ap some (looks_same_iff j i a (b ∙ sym c) t))
      | inr t ↦ rw (keep_item, e, t) (lookup-insert_self i.id i cache)
    ]
  ]

lookup-keep_item :
    (id : Str) (cache : Dict QueueItem) (i : QueueItem)
    → (i.id === id) ≡ false
    → lookup id (keep_item cache i) ≡ lookup id cache
lookup-keep_item id cache i h =
    let other : lookup id (insert i.id i cache) ≡ lookup id cache =
      lookup-insert i.id id i cache ∙ rw h refl in
    elim (Option-cases (lookup i.id cache)) [
      | inl e ↦ rw (keep_item, e) other
      | inr (j, e) ↦ elim (Bool-cases (looks_same j i)) [
        | inl t ↦ rw (keep_item, e, t) refl
        | inr t ↦ rw (keep_item, e, t) other
      ]
    ]

pub lookup-keep_all :
    (id : Str) (items : List QueueItem) (cache : Dict QueueItem)
    → any (has_item_id id) items ≡ false
    → lookup id (foldl keep_item cache items) ≡ lookup id cache
lookup-keep_all id [] cache h = refl
lookup-keep_all id (i ∷ is) cache h =
    let (a, b) = or_false _ _ h in
    lookup-keep_all id is (keep_item cache i) b ∙ lookup-keep_item id cache i a
