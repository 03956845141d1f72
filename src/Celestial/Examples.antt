-- ===== src/Celestial/Examples.antt =====
-- The theorems about the celestial names at concrete inputs.
use agentgrove.Base.{All, [], codes, false, true, ◌∷◌, ◌≡◌, ◌⊎◌}
use agentgrove.Celestial.Bodies.{body, star}
use agentgrove.Celestial.Branches.{
  all_celestial, fallback_name, is_taken, name_of, suggest_branch_name,
}
use agentgrove.Celestial.Free.{suggest_branch_name_free}

suggest_branch_name_free_example :
    (is_taken (codes "feature/vega" ∷ []) (
        suggest_branch_name
          (codes "feature/vega" ∷ [])
          (body (codes "Vega") star ∷ [])
          []
          (codes "x"))
      ≡ false)
    ⊎ (All (λ b. is_taken (codes "feature/vega" ∷ []) (name_of b) ≡ true) all_celestial
        × (suggest_branch_name
              (codes "feature/vega" ∷ [])
              (body (codes "Vega") star ∷ [])
              []
              (codes "x")
            ≡ fallback_name (codes "x")))
suggest_branch_name_free_example =
    suggest_branch_name_free (codes "feature/vega" ∷ []) (body (codes "Vega") star ∷ []) []
      (codes "x")
