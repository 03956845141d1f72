-- ===== src/ToolRail/Pairs.antt =====
-- What the pairing of calls and results keeps (apps/web/src/features/chat/ToolRail.tsx).
use agentgrove.Base.{
  Bool, Bool-cases, List, Option, [], ap, append-nil, append_assoc, false, filter, inl, inr, none,
  refl, some, suc, sym, true, zero, ℕ, ◌++◌, ◌∙◌, ◌∷◌, ◌≡◌,
}
use agentgrove.Chat.Types.{
  AgentEvent, done, error, retry, session_start, thinking, token, tool_call, tool_result, truncated,
}
use agentgrove.ToolRail.{
  Pairing, ToolEntry, call_of, no_pairing, pair_event, pair_from, pair_tools, place_result,
  set_result,
}

-- The calls of the rows, in the order of the rows.
abbrev pub some_call : Option AgentEvent → List AgentEvent
some_call none = []
some_call (some ev) = ev ∷ []

abbrev pub calls : List ToolEntry → List AgentEvent
calls [] = []
calls (e ∷ es) = some_call e.call ++ calls es

abbrev pub is_call : AgentEvent → Bool
is_call (tool_call name args id) = true
is_call _ = false

abbrev pub is_error : AgentEvent → Bool
is_error (error message) = true
is_error _ = false

abbrev pub is_cut : AgentEvent → Bool
is_cut (truncated dropped) = true
is_cut _ = false

calls-append : (xs ys : List ToolEntry) → calls (xs ++ ys) ≡ calls xs ++ calls ys
calls-append [] ys = refl
calls-append (x ∷ xs) ys =
    ap (λ t. some_call x.call ++ t) (calls-append xs ys)
    ∙ sym (append_assoc (some_call x.call) (calls xs) (calls ys))

calls-set_result :
    (ev : AgentEvent) (i : ℕ) (es : List ToolEntry) → calls (set_result ev i es) ≡ calls es
calls-set_result ev i [] = refl
calls-set_result ev zero (e ∷ es) = refl
calls-set_result ev (suc i) (e ∷ es) = ap (λ t. some_call e.call ++ t) (calls-set_result ev i es)

calls-place_result :
    (ev : AgentEvent) (i : ℕ) (o : Option ℕ) (p : Pairing)
    → (calls (place_result ev i o p).entries ≡ calls p.entries)
      × ((place_result ev i o p).errors ≡ p.errors)
      × ((place_result ev i o p).cuts ≡ p.cuts)
calls-place_result ev i (some j) p = (calls-set_result ev j p.entries, refl, refl)
calls-place_result ev i none p =
    (calls-append p.entries _ ∙ append-nil (calls p.entries), refl, refl)

-- What one event, or more, add to a pairing.
abbrev Adds : Pairing → List AgentEvent → Pairing → Type 0
Adds q evs p =
    (calls q.entries ≡ calls p.entries ++ filter is_call evs)
    × (q.errors ≡ p.errors ++ filter is_error evs)
    × (q.cuts ≡ p.cuts ++ filter is_cut evs)

pair_event-Adds : (i : ℕ) (ev : AgentEvent) (p : Pairing) → Adds (pair_event i ev p) (ev ∷ []) p
pair_event-Adds i (tool_call name args id) p =
    (calls-append p.entries _, sym (append-nil p.errors), sym (append-nil p.cuts))
pair_event-Adds i (tool_result name result id) p =
    let (c, e, k) = calls-place_result (tool_result name result id) i (call_of id p.by_id) p in
    (
      c ∙ sym (append-nil (calls p.entries)),
      e ∙ sym (append-nil p.errors),
      k ∙ sym (append-nil p.cuts),
    )
pair_event-Adds i (error message) p =
    (sym (append-nil (calls p.entries)), refl, sym (append-nil p.cuts))
pair_event-Adds i (truncated dropped) p =
    (sym (append-nil (calls p.entries)), sym (append-nil p.errors), refl)
pair_event-Adds i (session_start id) p =
    (sym (append-nil (calls p.entries)), sym (append-nil p.errors), sym (append-nil p.cuts))
pair_event-Adds i (token t) p =
    (sym (append-nil (calls p.entries)), sym (append-nil p.errors), sym (append-nil p.cuts))
pair_event-Adds i (thinking t) p =
    (sym (append-nil (calls p.entries)), sym (append-nil p.errors), sym (append-nil p.cuts))
pair_event-Adds i (done r c) p =
    (sym (append-nil (calls p.entries)), sym (append-nil p.errors), sym (append-nil p.cuts))
pair_event-Adds i (retry m) p =
    (sym (append-nil (calls p.entries)), sym (append-nil p.errors), sym (append-nil p.cuts))

joined {ℓ} :
    {A : Type ℓ} (f : A → Bool) (x : A) (xs p q r : List A)
    → q ≡ p ++ filter f (x ∷ [])
    → r ≡ q ++ filter f xs
    → r ≡ p ++ filter f (x ∷ xs)
joined f x xs p q r a b =
    b
    ∙ ap (λ t. t ++ filter f xs) a
    ∙ append_assoc p (filter f (x ∷ [])) (filter f xs)
    ∙ ap (λ t. p ++ t) (elim (Bool-cases (f x)) [ inl e ↦ rw e refl | inr e ↦ rw e refl ])

pair_from-Adds : (i : ℕ) (evs : List AgentEvent) (p : Pairing) → Adds (pair_from i evs p) evs p
unfolding pair_from
pair_from-Adds i [] p =
    (sym (append-nil (calls p.entries)), sym (append-nil p.errors), sym (append-nil p.cuts))
pair_from-Adds i (ev ∷ evs) p =
    let (a, b, c) = pair_event-Adds i ev p in
    let (x, y, z) = pair_from-Adds (suc i) evs (pair_event i ev p) in
    (
      joined is_call ev evs _ _ _ a x,
      joined is_error ev evs _ _ _ b y,
      joined is_cut ev evs _ _ _ c z,
    )

pub pair_tools-Shows :
    (evs : List AgentEvent)
    → (calls (pair_tools evs).entries ≡ filter is_call evs)
      × ((pair_tools evs).errors ≡ filter is_error evs)
      × ((pair_tools evs).cuts ≡ filter is_cut evs)
unfolding pair_tools
pair_tools-Shows evs = pair_from-Adds 0 evs no_pairing
