-- ===== src/Chat/Session/Batching/Merge.antt =====
-- Joining the deltas in a map first, and then committing the map, is the same as committing them
-- one by one.
use agentgrove.Base.{
  ===_iff, ===_refl, Bool, Bool-cases, Dict, List, Str, [], ap, append_assoc, arith, false, foldl,
  if◌then◌else◌, inl, inr, insert, lookup, refl, subst, sym, true, ◌++◌, ◌===◌, ◌||◌, ◌∙◌, ◌∷◌, ◌≡◌,
  ◌⊎◌,
}
use agentgrove.Chat.Types.{AgentEvent, WsFrame, thinking, token}
use agentgrove.Chat.Stream.{append_live}
use agentgrove.Chat.Session.Batching.{add_thinking, add_token, merge_live}

abbrev pub has_key : Str → Dict Str → Bool
has_key k [] = false
has_key k ((j, u) ∷ m) = j === k || has_key k m

abbrev pub Distinct : Dict Str → Type 0
Distinct [] = Unit
Distinct ((j, u) ∷ m) = (has_key j m ≡ false) × Distinct m

append_live-cons :
    (k t j u : Str) (m : Dict Str)
    → append_live k t ((j, u) ∷ m)
      ≡ (if j === k then (j, u ++ t) ∷ m else (j, u) ∷ append_live k t m)
unfolding append_live lookup insert
append_live-cons k t j u m = ground arith

append_live-nil : (k t : Str) → append_live k t [] ≡ (k, t) ∷ []
unfolding append_live lookup insert
append_live-nil k t = refl

has_key-append_live :
    (k j t : Str) (m : Dict Str) → has_key k (append_live j t m) ≡ (j === k || has_key k m)
has_key-append_live k j t [] = rw append_live-nil
has_key-append_live k j t ((i, u) ∷ m) =
    rw append_live-cons
      (ground (arith, has_key-append_live k j t m, ===_iff i j, ===_iff i k, ===_iff j k))

append_live-Distinct : (k t : Str) (m : Dict Str) → Distinct m → Distinct (append_live k t m)
append_live-Distinct k t [] h = rw append_live-nil (refl, tt)
append_live-Distinct k t ((j, u) ∷ m) h = elim (Bool-cases (j === k)) [
  | inl e ↦ rw (append_live-cons, e) h
  | inr e ↦
      rw (append_live-cons, e)
        (
          ground (arith, has_key-append_live j k t m, ===_iff j k, ===_iff k j),
          append_live-Distinct k t m h.1,
        )
]

append_live-append_live :
    (k u t : Str) (d : Dict Str) → append_live k t (append_live k u d) ≡ append_live k (u ++ t) d
append_live-append_live k u t [] = rw (append_live-nil, append_live-cons, ===_refl, append_live-nil)
append_live-append_live k u t ((j, w) ∷ d) = elim (Bool-cases (j === k)) [
  | inl e ↦ simp (append_live-cons, e, append_assoc)
  | inr e ↦ simp (append_live-cons, e, append_live-append_live k u t d)
]

-- A key that is there and another one may be appended to in either order.
append_live_comm :
    (k j t u : Str) (d : Dict Str)
    → has_key k d ≡ true
    → (j === k) ≡ false
    → append_live k t (append_live j u d) ≡ append_live j u (append_live k t d)
append_live_comm k j t u [] h ne = cc
append_live_comm k j t u ((i, w) ∷ d) h ne = elim (Bool-cases (i === k)) [
  | inl ik ↦
      let ij : (i === j) ≡ false = ground (arith, ===_iff i k, ===_iff i j, ===_iff j k) in
      simp (append_live-cons, ik, ij)
  | inr ik ↦ elim (Bool-cases (i === j)) [
    | inl ij ↦ simp (append_live-cons, ik, ij)
    | inr ij ↦ simp (append_live-cons, ik, ij, append_live_comm k j t u d (ground arith) ne)
  ]
]

append_live-merge_live :
    (k t : Str) (m d : Dict Str)
    → has_key k m ≡ false
    → has_key k d ≡ true
    → append_live k t (merge_live m d) ≡ merge_live m (append_live k t d)
unfolding merge_live
append_live-merge_live k t [] d h p = refl
append_live-merge_live k t ((j, u) ∷ m) d h p =
    append_live-merge_live k t m (append_live j u d) (ground arith)
      (ground (arith, has_key-append_live k j u d))
    ∙ ap (merge_live m) (append_live_comm k j t u d p (ground arith))

merge_live-append_live :
    (k t : Str) (m d : Dict Str)
    → Distinct m
    → merge_live (append_live k t m) d ≡ append_live k t (merge_live m d)
unfolding merge_live
merge_live-append_live k t [] d h = rw append_live-nil
merge_live-append_live k t ((j, u) ∷ m) d h = elim (Bool-cases (j === k)) [
  | inl e ↦
      let same : j ≡ k = (===_iff j k).0 e in
      let fresh : has_key k m ≡ false = subst (λ x. has_key x m ≡ false) same h.0 in
      rw (append_live-cons, e)
        (sym (
          append_live-merge_live k t m (append_live j u d) fresh
            (ground (arith, has_key-append_live k j u d))
          ∙ ap (merge_live m) (
              ap (λ x. append_live k t (append_live x u d)) same
              ∙ append_live-append_live k u t d
              ∙ ap (λ x. append_live x (u ++ t) d) (sym same))))
  | inr e ↦ rw (append_live-cons, e) (merge_live-append_live k t m (append_live j u d) h.1)
]

-- `add` takes the frames of one kind and passes over the others.
abbrev pub Adds : (Dict Str → WsFrame → Dict Str) → Type 0
Adds add =
    (f : WsFrame)
    → ((m : Dict Str) → add m f ≡ m)
      ⊎ ((t : Str) × ((m : Dict Str) → add m f ≡ append_live f.prompt_id t m))

pub add_token-Adds : Adds add_token
unfolding add_token
add_token-Adds f = on f.event
  where
    on :
        (ev : AgentEvent)
        → ((m : Dict Str) → add_token m (record f { event = ev }) ≡ m)
          ⊎ ((t : Str) × ((m : Dict Str)
                → add_token m (record f { event = ev }) ≡ append_live f.prompt_id t m))
    on (token text) = inr (text, λ m. refl)
    on _ = inl (λ m. refl)

pub add_thinking-Adds : Adds add_thinking
unfolding add_thinking
add_thinking-Adds f = on f.event
  where
    on :
        (ev : AgentEvent)
        → ((m : Dict Str) → add_thinking m (record f { event = ev }) ≡ m)
          ⊎ ((t : Str) × ((m : Dict Str)
                → add_thinking m (record f { event = ev }) ≡ append_live f.prompt_id t m))
    on (thinking text) = inr (text, λ m. refl)
    on _ = inl (λ m. refl)

-- Folding the frames into a committed map, and committing the folded map.
pub foldl-merge_live :
    (add : Dict Str → WsFrame → Dict Str) (adds : Adds add) (fs : List WsFrame) (m d : Dict Str)
    → Distinct m
    → foldl add (merge_live m d) fs ≡ merge_live (foldl add m fs) d
foldl-merge_live add adds [] m d h = refl
foldl-merge_live add adds (f ∷ fs) m d h = elim (adds f) [
  | inl skip ↦ rw (skip (merge_live m d), skip m) (foldl-merge_live add adds fs m d h)
  | inr (t, add_t) ↦
      rw (add_t (merge_live m d), add_t m, ← merge_live-append_live f.prompt_id t m d h)
        (foldl-merge_live add adds fs (append_live f.prompt_id t m) d
          (append_live-Distinct f.prompt_id t m h))
]
