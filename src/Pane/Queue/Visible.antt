-- ===== src/Pane/Queue/Visible.antt =====
-- The items of the queue that are to be seen (apps/web/src/shells/desktop/panes/ChatPane.tsx).
use agentgrove.Base.{
  ===_iff, Bool, Bool-cases, List, Str, [], any, false, false≢true, filter, inl, inr, refl, sym,
  true, ◌===◌, ◌||◌, ◌∙◌, ◌∷◌, ◌≡◌, ◌⊎◌,
}
use agentgrove.Chat.Types.{Prompt, done}
use agentgrove.Pane.Queue.{
  QueueItem, QueueStatus, cancelled, done, is_pending, is_visible, pending, running,
}

-- A prompt of the timeline has the text.
abbrev pub HasText : Str → List Prompt → Type 0
HasText body [] = ⊥
HasText body (p ∷ ps) = (p.content ≡ body) ⊎ HasText body ps

-- The items of a queue that are to be seen, in their order: the pending ones, and of the others
-- those whose text is not a prompt's.
pub data IsVisibleOf (prompts : List Prompt) : List QueueItem → List QueueItem → Type 0 where
  no_items : IsVisibleOf prompts [] []
  waiting :
      {i : QueueItem} {items seen : List QueueItem}
      → i.status ≡ pending
      → IsVisibleOf prompts items seen
      → IsVisibleOf prompts (i ∷ items) (i ∷ seen)
  unsent :
      {i : QueueItem} {items seen : List QueueItem}
      → ¬ HasText i.body prompts
      → IsVisibleOf prompts items seen
      → IsVisibleOf prompts (i ∷ items) (i ∷ seen)
  sent :
      {i : QueueItem} {items seen : List QueueItem}
      → ¬ (i.status ≡ pending)
      → HasText i.body prompts
      → IsVisibleOf prompts items seen
      → IsVisibleOf prompts (i ∷ items) seen

is_pending-pending : (i : QueueItem) → i.status ≡ pending → is_pending i ≡ true
is_pending-pending i e = rw e refl

pending_of :
    (s : QueueStatus)
    → (elim s [ pending ↦ true | running ↦ false | done ↦ false | cancelled ↦ false ]) ≡ true
    → s ≡ pending
pending_of pending e = refl
pending_of running e = absurd (false≢true e)
pending_of done e = absurd (false≢true e)
pending_of cancelled e = absurd (false≢true e)

pub or_false : (a b : Bool) → (a || b) ≡ false → (a ≡ false) × (b ≡ false)
or_false true b e = absurd (false≢true (sym e))
or_false false b e = (refl, e)

has_text :
    (body : Str) (ps : List Prompt)
    → any (λ (p : Prompt). p.content === body) ps ≡ true
    → HasText body ps
has_text body [] h = absurd (false≢true h)
has_text body (p ∷ ps) h = elim (Bool-cases (p.content === body)) [
  | inl e ↦ inl ((===_iff p.content body).0 e)
  | inr e ↦ inr (has_text body ps (sym (rw e refl) ∙ h))
]

has_no_text :
    (body : Str) (ps : List Prompt)
    → any (λ (p : Prompt). p.content === body) ps ≡ false
    → ¬ HasText body ps
has_no_text body [] h t = t
has_no_text body (p ∷ ps) h (inl e) =
    false≢true (sym (or_false _ _ h).0 ∙ (===_iff p.content body).1 e)
has_no_text body (p ∷ ps) h (inr t) = has_no_text body ps (or_false _ _ h).1 t

pub filter-IsVisibleOf :
    (prompts : List Prompt) (items : List QueueItem)
    → IsVisibleOf prompts items (filter (is_visible prompts) items)
filter-IsVisibleOf prompts [] = no_items
filter-IsVisibleOf prompts (i ∷ is) =
    let rest = filter-IsVisibleOf prompts is in
    elim (Bool-cases (is_pending i)) [
      | inl e ↦ rw e (waiting (pending_of i.status e) rest)
      | inr e ↦ elim (Bool-cases (any (λ (p : Prompt). p.content === i.body) prompts)) [
        | inl t ↦
            rw (e, t)
              (sent (λ s. false≢true (sym e ∙ is_pending-pending i s)) (has_text i.body prompts t)
                rest)
        | inr t ↦ rw (e, t) (unsent (has_no_text i.body prompts t) rest)
      ]
    ]
