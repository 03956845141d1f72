-- ===== src/Pane/Queue/Reordered.antt =====
-- The order of the queue after a drag (apps/web/src/shells/desktop/panes/ChatPane.tsx).
use agentgrove.Base.{
  ===_iff, All, Bool-cases, List, Option, Option-cases, Str, [], ap, ap₂, filter, inl, inr, map,
  none, refl, some, some_inj, sym, ◌++◌, ◌∙◌, ◌∷◌, ◌≡◌,
}
use agentgrove.Pane.Queue.{
  QueueItem, QueuePane, QueueState, has_item_id, in_order, is_running, item_with, items_of, present,
  reorder_queue_begin,
}

abbrev pub item_ids : List QueueItem → List Str
item_ids items = map (λ (i : QueueItem). i.id) items

abbrev pub IsQueued : List QueueItem → Str → Type 0
IsQueued items id = (i : QueueItem) × (item_with id items ≡ some i)

item_with-id :
    (id : Str) (items : List QueueItem) {i : QueueItem} → item_with id items ≡ some i → i.id ≡ id
item_with-id id [] h = cc
item_with-id id (j ∷ js) {i} h = elim (Option-cases (item_with id js)) [
  | inr (k, e) ↦
      let at : k ≡ i = some_inj (sym (rw e refl) ∙ h) in
      ap (λ (x : QueueItem). x.id) (sym at) ∙ item_with-id id js e
  | inl e ↦ elim (Bool-cases (has_item_id id j)) [
    | inl t ↦
        let at : j ≡ i = some_inj (sym (rw (e, t) refl) ∙ h) in
        ap (λ (x : QueueItem). x.id) (sym at) ∙ (===_iff j.id id).0 t
    | inr t ↦ let at : none ≡ some i = sym (rw (e, t) refl) ∙ h in cc
  ]
]

item_ids-append : (xs ys : List QueueItem) → item_ids (xs ++ ys) ≡ item_ids xs ++ item_ids ys
item_ids-append [] ys = refl
item_ids-append (x ∷ xs) ys = ap (λ t. x.id ∷ t) (item_ids-append xs ys)

item_ids-in_order :
    (ids : List Str) (items : List QueueItem)
    → All (IsQueued items) ids
    → item_ids (in_order ids items) ≡ ids
item_ids-in_order [] items h = refl
item_ids-in_order (id ∷ ids) items ((i, e), h) =
    ap (λ (o : Option QueueItem). item_ids (present o ++ in_order ids items)) e
    ∙ ap₂ (λ (x : Str) (t : List Str). x ∷ t) (item_with-id id items e)
        (item_ids-in_order ids items h)

-- After a drag the queue shows at once the running items and then the items of the new order, each
-- of which it had, in that order.
pub reorder_queue_begin-ids :
    (ids : List Str) (q : QueueState) (s : QueuePane)
    → s.queue ≡ some q
    → All (IsQueued q.items) ids
    → item_ids (items_of (reorder_queue_begin ids s).queue)
      ≡ item_ids (filter is_running q.items) ++ ids
unfolding reorder_queue_begin
reorder_queue_begin-ids ids q s e h =
    rw (reorder_queue_begin, e)
      (item_ids-append (filter is_running q.items) (in_order ids q.items)
        ∙ ap (λ t. item_ids (filter is_running q.items) ++ t) (item_ids-in_order ids q.items h))
