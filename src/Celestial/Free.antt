-- ===== src/Celestial/Free.antt =====
-- The suggested name is free (apps/web/src/core/lib/celestial.ts).
use agentgrove.Base.{
  All, Bool-cases, List, Option, Option-cases, Str, [], false, inl, inr, map, none, refl, some,
  some_inj, subst, sym, take, true, ℕ, ◌∙◌, ◌∷◌, ◌≡◌, ◌≢◌, ◌⊎◌,
}
use agentgrove.Celestial.Bodies.{CelestialBody}
use agentgrove.Celestial.Branches.{
  all_celestial, fallback_name, first_free, is_taken, name_of, suffixed, suggest_branch_name,
}

some_not_none : {x : Str} → ◌≢◌ {A = Option Str} (some x) none
some_not_none e = cc

first_free_is_free :
    (taken names : List Str) {n : Str} → first_free taken names ≡ some n → is_taken taken n ≡ false
first_free_is_free taken [] e = cc
first_free_is_free taken (m ∷ names) e = elim (Bool-cases (is_taken taken m)) [
  | inl k ↦
      let at : first_free taken (m ∷ names) ≡ first_free taken names = rw k refl in
      first_free_is_free taken names (sym at ∙ e)
  | inr k ↦
      let at : first_free taken (m ∷ names) ≡ some m = rw k refl in
      subst (λ x. is_taken taken x ≡ false) (some_inj (sym at ∙ e)) k
]

first_free-none :
    (taken : List Str) (bodies : List CelestialBody)
    → first_free taken (map name_of bodies) ≡ none
    → All (λ b. is_taken taken (name_of b) ≡ true) bodies
first_free-none taken [] e = tt
first_free-none taken (b ∷ bodies) e = elim (Bool-cases (is_taken taken (name_of b))) [
  | inl k ↦
      let at : first_free taken (map name_of (b ∷ bodies)) ≡ first_free taken (map name_of bodies) =
        rw k refl in
      (k, first_free-none taken bodies (sym at ∙ e))
  | inr k ↦
      let at : first_free taken (map name_of (b ∷ bodies)) ≡ some (name_of b) = rw k refl in
      absurd (some_not_none (sym at ∙ e))
]

-- The suggested branch name is free, unless every celestial body has a branch and the name is the
-- one made of the time.
pub suggest_branch_name_free :
    (taken : List Str) (draws : List CelestialBody) (late : List (CelestialBody × ℕ)) (stamp : Str)
    → (is_taken taken (suggest_branch_name taken draws late stamp) ≡ false)
      ⊎ (All (λ b. is_taken taken (name_of b) ≡ true) all_celestial
          × (suggest_branch_name taken draws late stamp ≡ fallback_name stamp))
unfolding suggest_branch_name
suggest_branch_name_free taken draws late stamp =
    elim (Option-cases (first_free taken (map name_of (take 50 draws)))) [
      | inr (n, e) ↦ inl (rw e (first_free_is_free taken _ e))
      | inl e ↦ elim (Option-cases (first_free taken (map name_of all_celestial))) [
        | inr (n, k) ↦ inl (rw (e, k) (first_free_is_free taken _ k))
        | inl k ↦ elim (Option-cases (first_free taken (map suffixed (take 200 late)))) [
          | inr (n, l) ↦ inl (rw (e, k, l) (first_free_is_free taken _ l))
          | inl l ↦ inr (first_free-none taken all_celestial k, rw (e, k, l) refl)
        ]
      ]
    ]
