-- ===== src/Pane/Queue/Shown.antt =====
-- What the pane shows of the queue (apps/web/src/shells/desktop/panes/ChatPane.tsx).
use agentgrove.Pane.Queue.Visible.{IsVisibleOf, filter-IsVisibleOf, or_false}
use agentgrove.Pane.Queue.Cached.{
  IsCached, IsCached-keep_item, IsEntryOf, foldl-keep_item-IsEntryOf, keep_item-IsEntryOf,
  lookup-keep_all,
}
use agentgrove.Pane.Queue.{
  QueueItem, QueuePane, has_item_id, is_shown, is_visible, items_of, keep_item, queue_items,
  refresh_cache, visible_items,
}
use agentgrove.Base.{
  ===_iff, ===_refl, All, All-filter, Bool, Bool-cases, Dict, List, Option, Str, [], any, ap, ap₂,
  false, filter, foldl, inl, inr, lookup, map, refl, some, true, ◌===◌, ◌||◌, ◌∙◌, ◌∷◌, ◌≡◌,
}
use agentgrove.Chat.Types.{Prompt}
use agentgrove.Pane.Queue.{
  QueueItem, QueuePane, has_item_id, is_shown, is_visible, items_of, keep_item, queue_items,
  refresh_cache, visible_items,
}

-- No two items have one id.
abbrev pub AreDistinct : List QueueItem → Type 0
AreDistinct [] = Unit
AreDistinct (i ∷ is) = (any (has_item_id i.id) is ≡ false) × AreDistinct is

any-filter-false {ℓ} :
    {A : Type ℓ} (f g : A → Bool) (xs : List A) → any f xs ≡ false → any f (filter g xs) ≡ false
any-filter-false f g [] h = refl
any-filter-false f g (x ∷ xs) h =
    let (a, b) = or_false (f x) (any f xs) h in
    elim (Bool-cases (g x)) [
      | inl e ↦ rw (e, a) (any-filter-false f g xs b)
      | inr e ↦ rw e (any-filter-false f g xs b)
    ]

AreDistinct-filter :
    (g : QueueItem → Bool) (items : List QueueItem)
    → AreDistinct items
    → AreDistinct (filter g items)
AreDistinct-filter g [] h = tt
AreDistinct-filter g (i ∷ is) (n, h) = elim (Bool-cases (g i)) [
  | inl e ↦ rw e (any-filter-false (has_item_id i.id) g is n, AreDistinct-filter g is h)
  | inr e ↦ rw e (AreDistinct-filter g is h)
]

keep_item-IsCached :
    (chat_of : Str → Str) (items : List QueueItem) (cache : Dict QueueItem)
    → AreDistinct items
    → All (λ (i : QueueItem). i.chat_id ≡ chat_of i.id) items
    → All (IsEntryOf chat_of) cache
    → All (IsCached (foldl keep_item cache items)) items
keep_item-IsCached chat_of [] cache d c h = tt
keep_item-IsCached chat_of (i ∷ is) cache (n, d) (c, cs) h = (
  lookup-keep_all i.id is (keep_item cache i) n ∙ IsCached-keep_item chat_of cache i c h,
  keep_item-IsCached chat_of is (keep_item cache i) d cs (keep_item-IsEntryOf chat_of cache i c h),
)

true_or : (a b : Bool) → b ≡ true → (a || b) ≡ true
true_or true b e = refl
true_or false b e = e

-- Each item of the part is found by its id where all that the part holds is.
any-own_id :
    (items part : List QueueItem)
    → ((id : Str) → any (has_item_id id) part ≡ true → any (has_item_id id) items ≡ true)
    → All (λ (i : QueueItem). any (has_item_id i.id) items ≡ true) part
any-own_id items [] h = tt
any-own_id items (i ∷ is) h = (
  h i.id (rw (===_refl i.id) refl),
  any-own_id items is (λ id e. h id (true_or (i.id === id) _ e)),
)

-- The deletion of the keys that are not shown keeps the others.
lookup-filter_shown :
    (items : List QueueItem) (id : Str) (cache : Dict QueueItem)
    → any (has_item_id id) items ≡ true
    → lookup id (filter (is_shown items) cache) ≡ lookup id cache
unfolding lookup
lookup-filter_shown items id [] h = refl
lookup-filter_shown items id ((k, i) ∷ m) h =
    let rest : lookup id (filter (is_shown items) m) ≡ lookup id m =
      lookup-filter_shown items id m h in
    elim (Bool-cases (k === id)) [
      | inl e ↦
          let same : any (has_item_id k) items ≡ true =
            ap (λ x. any (has_item_id x) items) ((===_iff k id).0 e) ∙ h in
          rw (same, lookup, e) refl
      | inr e ↦ elim (Bool-cases (any (has_item_id k) items)) [
        | inl t ↦ rw (t, lookup, e) rest
        | inr t ↦ rw (t, e) rest
      ]
    ]

IsCached-shown :
    (items part : List QueueItem) (cache : Dict QueueItem)
    → All (λ (i : QueueItem). any (has_item_id i.id) items ≡ true) part
    → All (IsCached cache) part
    → map (λ (i : QueueItem). lookup i.id (filter (is_shown items) cache)) part ≡ map some part
IsCached-shown items [] cache own h = refl
IsCached-shown items (i ∷ is) cache (o, own) (e, h) =
    ap₂ (λ (x : Option QueueItem) (l : List (Option QueueItem)). x ∷ l)
      (lookup-filter_shown items i.id cache o ∙ e) (IsCached-shown items is cache own h)

-- Where no two items of the queue have one id, an item keeps its chat, and each entry of the cache
-- has an object with the id that is its key: what the pane shows, whatever older objects the cache
-- holds, are the items that are to be seen as the queue has them now, all their fields, in their
-- order. These are the pending ones, and of the others those whose text is no prompt's. The entries
-- of the cache after it again have objects with the ids that are their keys, of their chats.
pub queue_items-IsVisibleOf :
    (chat_of : Str → Str) (prompts : List Prompt) (s : QueuePane) (cache : Dict QueueItem)
    → AreDistinct (items_of s.queue)
    → All (λ (i : QueueItem). i.chat_id ≡ chat_of i.id) (items_of s.queue)
    → All (IsEntryOf chat_of) cache
    → (seen : List QueueItem) × IsVisibleOf prompts (items_of s.queue) seen
      × ((queue_items prompts s cache).0 ≡ map some seen)
      × All (IsEntryOf chat_of) (queue_items prompts s cache).1
unfolding queue_items refresh_cache visible_items
queue_items-IsVisibleOf chat_of prompts s cache d c h =
    let items = visible_items prompts s in
    let chats =
      All-filter (λ (i : QueueItem). i.chat_id ≡ chat_of i.id) (is_visible prompts)
        (items_of s.queue) c in
    let distinct = AreDistinct-filter (is_visible prompts) (items_of s.queue) d in
    (
      items,
      filter-IsVisibleOf prompts (items_of s.queue),
      IsCached-shown items items (foldl keep_item cache items) (any-own_id items items (λ id e. e))
          (keep_item-IsCached chat_of items cache distinct chats h),
      All-filter (IsEntryOf chat_of) (is_shown items) (foldl keep_item cache items)
          (foldl-keep_item-IsEntryOf chat_of items cache chats h),
    )
