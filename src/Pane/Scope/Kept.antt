-- ===== src/Pane/Scope/Kept.antt =====
-- What the refresh of the chats of a scope keeps
-- (apps/web/src/shells/desktop/panes/ChatPane.tsx).
use agentgrove.Base.{
  ===_iff, Bool, Bool-cases, List, Option, Option-cases, Str, [], ap, false≢true, inl, inr, none,
  none_not_some, refl, some, some_inj, sym, ◌===◌, ◌∙◌, ◌∷◌, ◌≡◌, ◌⊎◌,
}
use agentgrove.Store.Types.{ChatTab}
use agentgrove.Pane.Scope.{ChatSummary, chat_with, chats_to_set, own_draft, reconcile_tabs}

-- The server lists a chat with the id and the title.
abbrev pub IsListed : Str → Str → List ChatSummary → Type 0
IsListed id title [] = ⊥
IsListed id title (c ∷ cs) = ((c.id ≡ id) × (c.title ≡ title)) ⊎ IsListed id title cs

-- The server lists no chat with the id.
abbrev pub IsGone : Str → List ChatSummary → Type 0
IsGone id [] = Unit
IsGone id (c ∷ cs) = (¬ (c.id ≡ id)) × IsGone id cs

-- The same draft, where none and an empty one count as the same.
abbrev pub IsSameDraft : Option Str → Option Str → Type 0
IsSameDraft before after = (after ≡ before) ⊎ ((before ≡ some []) × (after ≡ none))

-- What becomes of the tabs of a scope.
pub data IsRefreshOf (be : List ChatSummary) : List ChatTab → List ChatTab → Type 0 where
  no_tabs : IsRefreshOf be [] []
  gone :
      {t : ChatTab} {ts now : List ChatTab}
      → IsGone t.id be
      → IsRefreshOf be ts now
      → IsRefreshOf be (t ∷ ts) now
  kept :
      {t u : ChatTab} {ts now : List ChatTab}
      → u.id ≡ t.id
      → IsListed t.id u.title be
      → IsSameDraft t.draft u.draft
      → IsRefreshOf be ts now
      → IsRefreshOf be (t ∷ ts) (u ∷ now)

chat_with-IsGone : (id : Str) (be : List ChatSummary) → chat_with id be ≡ none → IsGone id be
chat_with-IsGone id [] h = tt
chat_with-IsGone id (c ∷ cs) h = elim (Option-cases (chat_with id cs)) [
  | inr (d, e) ↦ absurd (none_not_some {a = d} (sym h ∙ rw e refl))
  | inl e ↦ elim (Bool-cases (c.id === id)) [
    | inl t ↦ absurd (none_not_some {a = c} (sym h ∙ rw (e, t) refl))
    | inr t ↦ (λ s. false≢true (sym t ∙ (===_iff c.id id).1 s), chat_with-IsGone id cs e)
  ]
]

chat_with-IsListed :
    (id : Str) (be : List ChatSummary) {c : ChatSummary}
    → chat_with id be ≡ some c
    → IsListed id c.title be
chat_with-IsListed id [] h = cc
chat_with-IsListed id (d ∷ ds) {c} h = elim (Option-cases (chat_with id ds)) [
  | inr (b, e) ↦
      let same : b ≡ c = some_inj (sym (rw e refl) ∙ h) in
      inr (chat_with-IsListed id ds (e ∙ ap some same))
  | inl e ↦ elim (Bool-cases (d.id === id)) [
    | inl t ↦
        let same : d ≡ c = some_inj (sym (rw (e, t) refl) ∙ h) in
        inl ((===_iff d.id id).0 t, ap (λ (x : ChatSummary). x.title) same)
    | inr t ↦ absurd (none_not_some {a = c} (sym (rw (e, t) refl) ∙ h))
  ]
]

own_draft-IsSameDraft : (d : Option Str) → IsSameDraft d (own_draft d)
own_draft-IsSameDraft none = inl refl
own_draft-IsSameDraft (some []) = inr (refl, refl)
own_draft-IsSameDraft (some (c ∷ cs)) = inl refl

reconcile_tabs-IsRefreshOf :
    (be : List ChatSummary) (ts : List ChatTab) → IsRefreshOf be ts (reconcile_tabs be ts)
reconcile_tabs-IsRefreshOf be [] = no_tabs
reconcile_tabs-IsRefreshOf be (t ∷ ts) =
    let rest = reconcile_tabs-IsRefreshOf be ts in
    elim (Option-cases (chat_with t.id be)) [
      | inl e ↦ rw e (gone (chat_with-IsGone t.id be e) rest)
      | inr (c, e) ↦
          rw e (kept refl (chat_with-IsListed t.id be e) (own_draft-IsSameDraft t.draft) rest)
    ]

-- Where a chat tab is open in the scope, the refresh opens none: it sets the open tabs in their
-- order, each with its id and its draft and with a title that the server lists for its chat, without
-- those whose chat the server does not list. An empty draft may become none.
pub chats_to_set-IsRefreshOf :
    (be : List ChatSummary) (hydrated : Bool) (t : ChatTab) (ts : List ChatTab)
    → (now : List ChatTab) × (chats_to_set be hydrated (t ∷ ts) ≡ some now)
      × IsRefreshOf be (t ∷ ts) now
unfolding chats_to_set
chats_to_set-IsRefreshOf be hydrated t ts =
    (reconcile_tabs be (t ∷ ts), refl, reconcile_tabs-IsRefreshOf be (t ∷ ts))
