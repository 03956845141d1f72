-- ===== src/Export/FileName.antt =====
-- The name of the exported file (apps/web/src/core/lib/exportChat.ts).
use agentgrove.Base.{
  All, All-take, Bool, Bool-cases, List, Str, [], arith, false, inl, inr, length, length-take, refl,
  take, true, truthy, ℕ, ◌&&◌, ◌==◌, ◌||◌, ◌∷◌, ◌≡◌, ◌≤◌,
}
use agentgrove.Celestial.Branches.{to_lower}
use agentgrove.Export.{dash_runs, is_empty, is_plain, or_chat, slugify, strip_back, strip_front}

-- A letter, a digit or a dash.
abbrev pub IsSafe : ℕ → Type 0
IsSafe c = (is_plain c || c == b'-') ≡ true

dash_runs-IsSafe : (after : Bool) (s : Str) → All IsSafe (dash_runs after s)
unfolding dash_runs
dash_runs-IsSafe after [] = tt
dash_runs-IsSafe after (c ∷ s) = elim (Bool-cases (is_plain c)) [
  | inl e ↦ rw e (rw e refl, dash_runs-IsSafe false s)
  | inr e ↦ elim (Bool-cases after) [
    | inl k ↦ rw (e, k) (dash_runs-IsSafe true s)
    | inr k ↦ rw (e, k) (refl, dash_runs-IsSafe true s)
  ]
]

strip_front-IsSafe : (s : Str) → All IsSafe s → All IsSafe (strip_front s)
unfolding strip_front
strip_front-IsSafe [] h = tt
strip_front-IsSafe (c ∷ s) h = elim (Bool-cases (c == b'-')) [
  | inl e ↦ rw e (strip_front-IsSafe s h.1)
  | inr e ↦ rw e h
]

strip_back-IsSafe : (s : Str) → All IsSafe s → All IsSafe (strip_back s)
unfolding strip_back
strip_back-IsSafe [] h = tt
strip_back-IsSafe (c ∷ s) h = elim (Bool-cases (c == b'-' && is_empty (strip_back s))) [
  | inl e ↦ rw e tt
  | inr e ↦ rw e (h.0, strip_back-IsSafe s h.1)
]

or_chat-IsSafe :
    (s : Str)
    → All IsSafe s
    → length s ≤ 60
    → All IsSafe (or_chat s) × (length (or_chat s) ≤ 60) × (truthy (or_chat s) ≡ true)
or_chat-IsSafe [] h l = ((refl, (refl, (refl, (refl, tt)))), omega arith, refl)
or_chat-IsSafe (c ∷ s) h l = (h, l, refl)

length-take_le {ℓ} : {A : Type ℓ} → (n : ℕ) (xs : List A) → length (take n xs) ≤ n
length-take_le n xs = omega (arith, length-take n xs)

-- The name made of any title is of letters, digits and dashes, of 60 characters at most, and not
-- empty.
pub slugify-IsSafe :
    (title : Str)
    → All IsSafe (slugify title) × (length (slugify title) ≤ 60) × (truthy (slugify title) ≡ true)
unfolding slugify
slugify-IsSafe title =
    let bare = strip_front-IsSafe _ (dash_runs-IsSafe false (to_lower title)) in
    or_chat-IsSafe _ (All-take IsSafe 60 _ (strip_back-IsSafe _ bare)) (length-take_le 60 _)
