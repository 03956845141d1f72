-- ===== src/Pane/Queue/Dropped.antt =====
-- The order that a drop asks for (apps/web/src/shells/desktop/QueueTimeline.tsx).
use agentgrove.Base.{
  Bool-cases, List, Option, Option-cases, Str, [], ap, arith, erase_idx, get_elem?, if_false,
  if_true, inl, inr, length, length-erase_idx, none, none_not_some, not, refl, some, some_inj,
  subst, suc, sym, truthy, zero, ℕ, ◌===◌, ◌||◌, ◌∙◌, ◌∷◌, ◌≡◌, ◌≤◌,
}
use agentgrove.Pane.Queue.{QueueItem, index_of, insert_at, moved, on_drop, pending_ids}

index_of-bound : (id : Str) (ids : List Str) {i : ℕ} → index_of id ids ≡ some i → suc i ≤ length ids
index_of-bound id [] h = absurd (none_not_some h)
index_of-bound id (j ∷ ids) {i} h = elim (Bool-cases (j === id)) [
  | inl e ↦ let at : 0 ≡ i = some_inj (sym (rw e refl) ∙ h) in omega (arith, at)
  | inr e ↦ elim (Option-cases (index_of id ids)) [
    | inl k ↦ absurd (none_not_some {a = i} (sym (rw (e, k) refl) ∙ h))
    | inr (n, k) ↦
        let at : suc n ≡ i = some_inj (sym (rw (e, k) refl) ∙ h) in
        omega (arith, at, index_of-bound id ids k)
  ]
]

insert_at-finds :
    (i : ℕ) (id : Str) (ids : List Str)
    → i ≤ length ids
    → (get_elem? (insert_at i id ids) i ≡ some id) × (erase_idx (insert_at i id ids) i ≡ ids)
insert_at-finds zero id ids le = (refl, refl)
insert_at-finds (suc i) id [] le = absurd (omega (arith, le))
insert_at-finds (suc i) id (j ∷ ids) le =
    let (a, b) = insert_at-finds i id ids (omega (arith, le)) in (a, ap (λ t. j ∷ t) b)

moved-some :
    (ids : List Str) (from : Str) (o p : Option ℕ) {next : List Str}
    → moved ids from o p ≡ some next
    → (i : ℕ) × (j : ℕ) × (o ≡ some i) × (p ≡ some j) × (insert_at j from (erase_idx ids i) ≡ next)
moved-some ids from (some i) (some j) h = (i, j, refl, refl, some_inj h)
moved-some ids from (some i) none h = absurd (none_not_some h)
moved-some ids from none p h = absurd (none_not_some h)

-- An order that a drop asks for has the dragged card at the place that the target had, and without
-- it the other cards that can be moved in the order that they had.
pub on_drop-moves :
    (from target : Str) (items : List QueueItem) {next : List Str}
    → on_drop (some from) target items ≡ some next
    → (i : ℕ) × (j : ℕ) × (index_of from (pending_ids items) ≡ some i)
      × (index_of target (pending_ids items) ≡ some j)
      × (get_elem? next j ≡ some from)
      × (erase_idx next j ≡ erase_idx (pending_ids items) i)
unfolding on_drop
on_drop-moves from target items {next} h =
    let ids = pending_ids items in
    elim (Bool-cases (not (truthy from) || from === target)) [
      | inl e ↦ absurd (none_not_some {a = next} (sym (if_true _ _ _ e) ∙ h))
      | inr e ↦
          let (i, j, a, b, at) = moved-some ids from _ _ (sym (if_false _ _ _ e) ∙ h) in
          let size : suc (length (erase_idx ids i)) ≡ length ids =
            length-erase_idx ids i (omega (arith, index_of-bound from ids a)) in
          let (found, rest) =
            insert_at-finds j from (erase_idx ids i)
              (omega (arith, size, index_of-bound target ids b)) in
          (
            i,
            j,
            a,
            b,
            subst (λ t. get_elem? t j ≡ some from) at found,
            subst (λ t. erase_idx t j ≡ erase_idx ids i) at rest,
          )
    ]
