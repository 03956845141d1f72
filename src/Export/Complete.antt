-- ===== src/Export/Complete.antt =====
-- The export has the whole history (apps/web/src/core/lib/exportChat.ts).
use agentgrove.Base.{
  Bool, Bool-cases, List, Str, [], ap, append_assoc, ap₂, arith, drop, false, inl, inr, leb, length,
  length-append, length-drop, length-take, refl, some, suc, sym, take, true, zero, ℕ, ◌++◌, ◌-◌,
  ◌<◌, ◌∙◌, ◌∷◌, ◌≡◌, ◌≤◌,
}
use agentgrove.Base.Int.{ℤ}
use agentgrove.Chat.Types.{ChatView, Prompt, PromptsBackfill}
use agentgrove.Chat.Session.{Answer, covers, ok}
use agentgrove.Export.{fetch_all_prompts, fetch_older}

-- The last `n` elements.
abbrev pub last_of {ℓ} : {A : Type ℓ} → ℕ → List A → List A
last_of n xs = drop (length xs - n) xs

-- The documented backfill: the page before a prompt of the history holds the last prompts before
-- it, as many as asked for, and says whether they reach the start.
abbrev pub IsServer : (Str → ℤ → ℕ → Answer PromptsBackfill) → Str → List Prompt → Type 0
IsServer list_prompts id history =
    (older rest : List Prompt) (p : Prompt)
    → history ≡ older ++ p ∷ rest
    → list_prompts id p.seq 200
      ≡ ok (record { prompts = last_of 200 older; at_start = leb (length older) 200 })

take-drop {ℓ} : {A : Type ℓ} → (n : ℕ) (xs : List A) → take n xs ++ drop n xs ≡ xs
take-drop zero xs = refl
take-drop (suc n) [] = refl
take-drop (suc n) (x ∷ xs) = ap (x ∷◌) (take-drop n xs)

-- A prompt of the history splits it where its page begins.
split_at_page :
    (older rest : List Prompt) (p : Prompt) (history page : List Prompt)
    → history ≡ older ++ p ∷ rest
    → last_of 200 older ≡ page
    → history ≡ take (length older - 200) older ++ (page ++ p ∷ rest)
split_at_page older rest p history page e k =
    e
    ∙ ap (λ xs. xs ++ p ∷ rest)
        (sym (take-drop (length older - 200) older) ∙ ap (take (length older - 200) older ++◌) k)
    ∙ append_assoc (take (length older - 200) older) page (p ∷ rest)

take_none {ℓ} : {A : Type ℓ} (n : ℕ) (xs ys : List A) → n ≡ 0 → take n xs ++ ys ≡ ys
take_none zero xs ys e = refl
take_none (suc n) xs ys e = absurd (omega arith)

nothing_before {ℓ} :
    {A : Type ℓ} (older ys : List A) → length (older ++ ys) ≤ length ys → older ++ ys ≡ ys
nothing_before [] ys h = refl
nothing_before (o ∷ older) ys h = absurd (omega (arith, length-append older ys))

length_split {ℓ} :
    {A : Type ℓ} (older rest : List A) (p : A) (xs : List A)
    → xs ≡ older ++ p ∷ rest
    → length older < length xs
length_split older rest p xs e = omega (arith, ap length e, length-append older (p ∷ rest))

module _ (list_prompts : Str → ℤ → ℕ → Answer PromptsBackfill) (id : Str) (history : List Prompt)
    (server : IsServer list_prompts id history) where
  -- What the loop gives, with some fuel, once it stands at a prompt of the history.
  abbrev Finishes : ℕ → Type 0
  Finishes fuel =
      (older rest : List Prompt) (p : Prompt)
      → history ≡ older ++ p ∷ rest
      → length older < fuel
      → fetch_older list_prompts id fuel false (p ∷ rest) ≡ some (ok history)

  fetch_end :
      (fuel : ℕ) (rest : List Prompt) (p : Prompt) (st : Bool)
      → list_prompts id p.seq 200 ≡ ok (record { prompts = []; at_start = st })
      → fetch_older list_prompts id (suc fuel) false (p ∷ rest) ≡ some (ok (p ∷ rest))
  unfolding fetch_older
  fetch_end fuel rest p st c = rw (fetch_older, c) refl

  fetch_page :
      (fuel : ℕ) (rest : List Prompt) (p : Prompt) (q : Prompt) (qs : List Prompt) (st : Bool)
      → list_prompts id p.seq 200 ≡ ok (record { prompts = q ∷ qs; at_start = st })
      → fetch_older list_prompts id (suc fuel) false (p ∷ rest)
        ≡ fetch_older list_prompts id fuel st (q ∷ qs ++ p ∷ rest)
  unfolding fetch_older
  fetch_page fuel rest p q qs st c = rw (fetch_older, c) refl

  fetch_start :
      (fuel : ℕ) (ps : List Prompt) → fetch_older list_prompts id fuel true ps ≡ some (ok ps)
  unfolding fetch_older
  fetch_start fuel ps = refl

  fetch_step :
      (fuel : ℕ)
      → Finishes fuel
      → (older rest : List Prompt) (p : Prompt) (page : List Prompt) → history ≡ older ++ p ∷ rest
      → length older < suc fuel
      → last_of 200 older ≡ page
      → fetch_older list_prompts id (suc fuel) false (p ∷ rest) ≡ some (ok history)
  fetch_step fuel ih older rest p [] e h k =
      let none_before : length older ≡ 0 =
        omega (arith, length-drop (length older - 200) older, ap length k) in
      fetch_end fuel rest p _ (
        server older rest p e
        ∙ ap (λ xs. ok (record { prompts = xs; at_start = leb (length older) 200 })) k)
      ∙ ap (λ xs. some (ok xs))
          (sym (
            split_at_page older rest p history [] e k
            ∙ take_none (length older - 200) older (p ∷ rest) (omega (arith, none_before))))
  fetch_step fuel ih older rest p (q ∷ qs) e h k = elim (Bool-cases (leb (length older) 200)) [
    | inl t ↦
        call
        ∙ ap (λ st. fetch_older list_prompts id fuel st (q ∷ qs ++ p ∷ rest)) t
        ∙ fetch_start fuel _
        ∙ ap (λ xs. some (ok xs))
            (sym (
              split_at_page older rest p history (q ∷ qs) e k
              ∙ take_none (length older - 200) older _ (ground arith)))
    | inr t ↦
        call
        ∙ ap (λ st. fetch_older list_prompts id fuel st (q ∷ qs ++ p ∷ rest)) t
        ∙ ih (take (length older - 200) older) (qs ++ p ∷ rest) q
            (split_at_page older rest p history (q ∷ qs) e k)
            (omega (
              arith,
              length-take (length older - 200) older,
              length-drop (length older - 200) older,
              ap length k,
            ))
  ]
    where
      call :
          fetch_older list_prompts id (suc fuel) false (p ∷ rest)
          ≡ fetch_older list_prompts id fuel (leb (length older) 200) (q ∷ qs ++ p ∷ rest)
      call = fetch_page fuel rest p q qs (leb (length older) 200) (
          server older rest p e
          ∙ ap (λ xs. ok (record { prompts = xs; at_start = leb (length older) 200 })) k)

  fetch-Finishes : (fuel : ℕ) → Finishes fuel
  fetch-Finishes zero older rest p e h = absurd (omega arith)
  fetch-Finishes (suc fuel) older rest p e h =
      fetch_step fuel (fetch-Finishes fuel) older rest p (last_of 200 older) e h refl

  -- Against a server with the documented backfill, with more fuel than the history has prompts, an
  -- export gets the whole history in its order from a view that holds the last prompts of it, at
  -- least one, and its true length.
  pub fetch_all_prompts_complete :
      (fuel : ℕ) (view : ChatView) (older rest : List Prompt) (p : Prompt)
      → history ≡ older ++ p ∷ rest
      → view.prompts ≡ p ∷ rest
      → view.prompts_total ≡ length history
      → length history < fuel
      → fetch_all_prompts list_prompts id fuel (ok view) ≡ some (ok history)
  unfolding fetch_all_prompts
  fetch_all_prompts_complete fuel view older rest p e v t h = elim (Bool-cases (covers view)) [
    | inl c ↦
        ap (λ st. fetch_older list_prompts id fuel st view.prompts) c
        ∙ fetch_start fuel view.prompts
        ∙ ap (λ xs. some (ok xs))
            (v
              ∙ sym (
                  e
                  ∙ nothing_before older (p ∷ rest)
                      (ground (arith, c, ap length v, ap length e, t))))
    | inr c ↦
        ap₂ (fetch_older list_prompts id fuel) c v
        ∙ fetch-Finishes fuel older rest p e (omega (arith, length_split older rest p history e))
  ]
