-- ===== src/Export/Examples.antt =====
-- The theorems about the export at concrete inputs.
use agentgrove.Base.{
  All, List, Str, [], ap, arith, codes, head?, length, length-append, none, refl, some, some_inj,
  subst, subst₂, suc, tail, true, truthy, ℕ, ◌∷◌, ◌≡◌, ◌≤◌,
}
use agentgrove.Base.Int.{ℤ}
use agentgrove.Chat.Types.{ChatView, Prompt, PromptsBackfill}
use agentgrove.Chat.Session.{Answer, ok}
use agentgrove.Export.{fetch_all_prompts, slugify}
use agentgrove.Export.Complete.{IsServer, fetch_all_prompts_complete}
use agentgrove.Export.FileName.{IsSafe, slugify-IsSafe}

slugify-IsSafe_example :
    All IsSafe (slugify (codes "My chat!"))
    × (length (slugify (codes "My chat!")) ≤ 60)
    × (truthy (slugify (codes "My chat!")) ≡ true)
slugify-IsSafe_example = slugify-IsSafe (codes "My chat!")

abbrev saved : ℕ → Prompt
saved seq = record {
  id = codes "a";
  seq = ℤ.pos seq;
  content = codes "hello";
  events = [];
  touched_paths = [];
  created_at = [];
}

abbrev two_prompts : List Prompt
two_prompts = saved 0 ∷ saved 1 ∷ []

-- A server of the two prompts.
abbrev page_before : ℤ → List Prompt
page_before (ℤ.pos (suc n)) = saved 0 ∷ []
page_before _ = []

abbrev list_two : Str → ℤ → ℕ → Answer PromptsBackfill
list_two id seq limit = ok (record { prompts = page_before seq; at_start = true })

list_two-IsServer : IsServer list_two (codes "c") two_prompts
list_two-IsServer [] rest p e =
    subst
      (λ (q : Prompt).
        list_two (codes "c") q.seq 200 ≡ ok (record { prompts = []; at_start = true }))
      (some_inj (ap head? e)) refl
list_two-IsServer (o ∷ []) rest p e =
    subst₂
      (λ (q r : Prompt).
        list_two (codes "c") r.seq 200 ≡ ok (record { prompts = q ∷ []; at_start = true }))
      (some_inj (ap head? e)) (some_inj (ap (λ xs. head? (tail xs)) e)) refl
list_two-IsServer (o ∷ o' ∷ older) rest p e =
    absurd (omega (arith, ap length e, length-append older (p ∷ rest)))

abbrev last_view : ChatView
last_view = record {
  id = codes "c";
  project_id = codes "p";
  worktree_id = none;
  title = [];
  provider = [];
  model = [];
  effort = none;
  created_at = [];
  session_id = none;
  prompts = saved 1 ∷ [];
  prompts_total = 2;
  prompts_window = 1;
  events_per_prompt = 200;
}

fetch_all_prompts_complete_example :
    fetch_all_prompts list_two (codes "c") 3 (ok last_view) ≡ some (ok two_prompts)
fetch_all_prompts_complete_example =
    fetch_all_prompts_complete list_two (codes "c") two_prompts list_two-IsServer 3 last_view
      (saved 0 ∷ []) [] (saved 1) refl refl refl (omega arith)
