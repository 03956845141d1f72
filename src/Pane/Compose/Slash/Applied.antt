-- ===== src/Pane/Compose/Slash/Applied.antt =====
-- Choosing a suggestion (apps/web/src/shells/desktop/panes/ChatPane.tsx).
use agentgrove.Base.{
  ==_iff, Bool, Bool-cases, List, Option, Option-cases, Str, [], any, ap, arith, drop, false,
  false≢true, filter, if_false, if_true, inl, inr, is_space, length, length-take, map, none,
  none_not_some, not, refl, some, some_inj, subst, suc, sym, take, true, truthy, ℕ, ◌&&◌, ◌++◌,
  ◌==◌, ◌∙◌, ◌∷◌, ◌≡◌, ◌≤◌,
}
use agentgrove.Pane.Compose.Slash.{
  PromptTemplate, ProviderCommand, SlashMenu, SlashSuggestion, apply_slash, at_line_start,
  last_slash, mentions, of_command, of_prompt, query_at, replace_at, suggestions,
  update_slash_state,
}

-- The text is what stands before the last slash, the slash, and what follows it.
last_slash-splits :
    (s : Str) {i : ℕ} → last_slash s ≡ some i → s ≡ take i s ++ (b'/' ∷ drop (suc i) s)
last_slash-splits [] h = absurd (none_not_some h)
last_slash-splits (c ∷ s) {i} h = elim (Option-cases (last_slash s)) [
  | inr (j, e) ↦
      let at : suc j ≡ i = some_inj (sym (rw e refl) ∙ h) in
      subst (λ k. c ∷ s ≡ take k (c ∷ s) ++ (b'/' ∷ drop (suc k) (c ∷ s))) at
        (ap (λ t. c ∷ t) (last_slash-splits s e))
  | inl e ↦ elim (Bool-cases (c == b'/')) [
    | inl t ↦
        let at : 0 ≡ i = some_inj (sym (rw (e, t) refl) ∙ h) in
        subst (λ k. c ∷ s ≡ take k (c ∷ s) ++ (b'/' ∷ drop (suc k) (c ∷ s))) at
          (ap (λ x. x ∷ s) ((==_iff c b'/').0 t))
    | inr t ↦ absurd (none_not_some {a = i} (sym (rw (e, t) refl) ∙ h))
  ]
]

query_at-some :
    (md : Str) (o : Option ℕ) (token : Str)
    → query_at md o ≡ some token
    → (i : ℕ) × (o ≡ some i) × (at_line_start md i ≡ true) × (drop (suc i) md ≡ token)
query_at-some md none token h = absurd (none_not_some h)
query_at-some md (some i) token h =
    elim (Bool-cases (at_line_start md i && not (any is_space (drop (suc i) md)))) [
      | inl e ↦ (i, refl, first_true _ _ e, some_inj (sym (if_true _ _ _ e) ∙ h))
      | inr e ↦ absurd (none_not_some {a = token} (sym (if_false _ _ _ e) ∙ h))
    ]
  where
    first_true : (a b : Bool) → (a && b) ≡ true → a ≡ true
    first_true true b e = refl
    first_true false b e = absurd (false≢true e)

-- Where the menu is open for what the user has typed, the text ends with a slash and the query, and
-- choosing a suggestion replaces both by the text of the suggestion, keeps all that stands before
-- them, and closes the menu.
pub apply_slash-replaces :
    (md token : Str) (s : SlashSuggestion) (m : SlashMenu)
    → query_at md (last_slash md) ≡ some token
    → (pre : Str) × (md ≡ pre ++ (b'/' ∷ token))
      × ((update_slash_state md m).query ≡ some token)
      × (apply_slash s (record (update_slash_state md m) { input = md })
          ≡ record { input = pre ++ s.inserted; query = none; idx = 0 })
unfolding update_slash_state apply_slash
apply_slash-replaces md token s m h =
    let (i, found, starts, rest) = query_at-some md (last_slash md) token h in
    (
      take i md,
      last_slash-splits md found ∙ ap (λ t. take i md ++ (b'/' ∷ t)) rest,
      rw (update_slash_state, h) refl,
      ap (λ o. replace_at s o (record (update_slash_state md m) { input = md })) found
          ∙ if_true _ _ _ starts,
    )

-- The menu offers 12 suggestions at most.
pub length-suggestions :
    (lower_case : Str → Str) (cmds : List ProviderCommand) (prompts : List PromptTemplate)
    (q : Option Str)
    → length (suggestions lower_case cmds prompts q) ≤ 12
unfolding suggestions
length-suggestions lower_case cmds prompts none = omega arith
length-suggestions lower_case cmds prompts (some q) =
    let offered = map of_command cmds ++ map of_prompt prompts in
    let found = filter (mentions lower_case (lower_case q)) offered in
    elim (Bool-cases (truthy (lower_case q))) [
      | inl e ↦ rw (suggestions, e) (omega (arith, length-take 12 found))
      | inr e ↦ rw (suggestions, e) (omega (arith, length-take 12 offered))
    ]
