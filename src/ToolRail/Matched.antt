-- ===== src/ToolRail/Matched.antt =====
-- A row of the rail with a call and a result is of one tool invocation
-- (apps/web/src/features/chat/ToolRail.tsx).
use agentgrove.Base.{
  ===_iff, All, All-append, Bool-cases, Dict, List, Option, Str, [], ap, filter, get_elem?, inl,
  inr, length, lookup, lookup-insert, none, none_not_some, refl, some, some_inj, subst, suc, sym,
  truthy, zero, ℕ, ◌++◌, ◌===◌, ◌∙◌, ◌∷◌, ◌≡◌,
}
use agentgrove.Chat.Types.{
  AgentEvent, done, error, retry, session_start, thinking, token, tool_call, tool_result, truncated,
}
use agentgrove.Base.Json.{Json}
use agentgrove.ToolRail.Pairs.{calls, is_call, is_cut, is_error, pair_tools-Shows}
use agentgrove.ToolRail.{
  Pairing, ToolEntry, call_key, call_of, no_pairing, pair_event, pair_from, pair_tools,
  place_result, set_result,
}

-- The event is a result with the id.
abbrev pub IsResultOf : Str → AgentEvent → Type 0
IsResultOf key (tool_result name result id) = id ≡ some key
IsResultOf key _ = ⊥

-- Where a row has a call and a result, the result is for the key of the row.
abbrev pub IsPaired : ToolEntry → Type 0
IsPaired e = elim e.call [
  | none ↦ Unit
  | some c ↦ elim e.result [ none ↦ Unit | some r ↦ IsResultOf e.key r ]
]

-- The index of the keys points at rows with these keys.
record IsIndexed (p : Pairing) : Type 0 where
  points :
      (k : Str) (j : ℕ)
      → lookup k p.by_id ≡ some j
      → (e : ToolEntry) × (get_elem? p.entries j ≡ some e) × (e.key ≡ k)
  paired : All IsPaired p.entries

get_elem?-append_left {ℓ} :
    {A : Type ℓ} (xs ys : List A) (j : ℕ) {x : A}
    → get_elem? xs j ≡ some x
    → get_elem? (xs ++ ys) j ≡ some x
get_elem?-append_left [] ys j e = cc
get_elem?-append_left (x ∷ xs) ys zero e = e
get_elem?-append_left (x ∷ xs) ys (suc j) e = get_elem?-append_left xs ys j e

get_elem?-last {ℓ} :
    {A : Type ℓ} (xs : List A) (y : A) → get_elem? (xs ++ y ∷ []) (length xs) ≡ some y
get_elem?-last [] y = refl
get_elem?-last (x ∷ xs) y = get_elem?-last xs y

get_elem?-set_result :
    (ev : AgentEvent) (i : ℕ) (es : List ToolEntry) (j : ℕ) {e : ToolEntry}
    → get_elem? es j ≡ some e
    → (d : ToolEntry) × (get_elem? (set_result ev i es) j ≡ some d) × (d.key ≡ e.key)
get_elem?-set_result ev i [] j h = cc
get_elem?-set_result ev zero (e ∷ es) zero h = (_, refl, ap (λ (x : ToolEntry). x.key) (some_inj h))
get_elem?-set_result ev zero (e ∷ es) (suc j) h = (_, h, refl)
get_elem?-set_result ev (suc i) (e ∷ es) zero h = (_, h, refl)
get_elem?-set_result ev (suc i) (e ∷ es) (suc j) h = get_elem?-set_result ev i es j h

IsPaired-result :
    (r : AgentEvent) (e : ToolEntry) → IsResultOf e.key r → IsPaired (record e { result = some r })
IsPaired-result r e h = go e.call
  where
    go : (o : Option AgentEvent) → IsPaired (record { call = o; result = some r; key = e.key })
    go none = tt
    go (some c) = h

IsPaired-set_result :
    (r : AgentEvent) (i : ℕ) (es : List ToolEntry) {e : ToolEntry}
    → get_elem? es i ≡ some e
    → IsResultOf e.key r
    → All IsPaired es
    → All IsPaired (set_result r i es)
IsPaired-set_result r i [] h k a = tt
IsPaired-set_result r zero (d ∷ es) h k (a, others) = (
  IsPaired-result r d (subst (λ (x : ToolEntry). IsResultOf x.key r) (sym (some_inj h)) k),
  others,
)
IsPaired-set_result r (suc i) (d ∷ es) h k (a, others) = (a, IsPaired-set_result r i es h k others)

IsIndexed-new :
    (i : ℕ) (name : Str) (args : Json) (id : Option Str) (p : Pairing)
    → IsIndexed p
    → IsIndexed (pair_event i (tool_call name args id) p)
IsIndexed-new i name args id p v =
    let row : ToolEntry = record {
      call = some (tool_call name args id);
      result = none;
      key = call_key id i;
    } in
    record {
      points = λ k j h. elim (Bool-cases (call_key id i === k)) [
        | inl e ↦
            let at : some (length p.entries) ≡ some j =
              sym (lookup-insert (call_key id i) k (length p.entries) p.by_id ∙ rw e refl) ∙ h in
            (
              row,
              subst (λ (n : ℕ). get_elem? (p.entries ++ row ∷ []) n ≡ some row) (some_inj at)
                  (get_elem?-last p.entries row),
              (===_iff (call_key id i) k).0 e,
            )
        | inr e ↦
            let at : lookup k p.by_id ≡ some j =
              sym (lookup-insert (call_key id i) k (length p.entries) p.by_id ∙ rw e refl) ∙ h in
            let (d, f, g) = v.points k j at in
            (d, get_elem?-append_left p.entries (row ∷ []) j f, g)
      ];
      paired = All-append IsPaired p.entries (row ∷ []) v.paired (tt, tt);
    }

call_of-some :
    (id : Option Str) (m : Dict ℕ) (j : ℕ)
    → call_of id m ≡ some j
    → (k : Str) × (id ≡ some k) × (lookup k m ≡ some j)
call_of-some none m j h = cc
call_of-some (some k) m j h = elim (Bool-cases (truthy k)) [
  | inl e ↦ (k, refl, sym (rw e refl) ∙ h)
  | inr e ↦ absurd (none_not_some (sym (rw e refl) ∙ h))
]

IsIndexed-result :
    (i : ℕ) (name : Str) (result : Json) (id : Option Str) (p : Pairing)
    → IsIndexed p
    → IsIndexed (pair_event i (tool_result name result id) p)
IsIndexed-result i name result id p v = go (call_of id p.by_id) refl
  where
    r : AgentEvent
    r = tool_result name result id

    go : (o : Option ℕ) → call_of id p.by_id ≡ o → IsIndexed (place_result r i o p)
    go none e = record {
      points =
          λ k j h. let (d, f, g) = v.points k j h in (d, get_elem?-append_left p.entries _ j f, g);
      paired = All-append IsPaired p.entries _ v.paired (tt, tt);
    }
    go (some n) e =
        let (key, same, found) = call_of-some id p.by_id n e in
        let (d, f, g) = v.points key n found in
        record {
          points = λ k j h.
              let (d', f', g') = v.points k j h in
              let (d'', f'', g'') = get_elem?-set_result r n p.entries j f' in (d'', f'', g'' ∙ g');
          paired = IsPaired-set_result r n p.entries f (same ∙ ap some (sym g)) v.paired;
        }

IsIndexed-event :
    (i : ℕ) (ev : AgentEvent) (p : Pairing) → IsIndexed p → IsIndexed (pair_event i ev p)
IsIndexed-event i (tool_call name args id) p v = IsIndexed-new i name args id p v
IsIndexed-event i (tool_result name result id) p v = IsIndexed-result i name result id p v
IsIndexed-event i (error message) p v = record { points = v.points; paired = v.paired }
IsIndexed-event i (truncated dropped) p v = record { points = v.points; paired = v.paired }
IsIndexed-event i (session_start id) p v = v
IsIndexed-event i (token t) p v = v
IsIndexed-event i (thinking t) p v = v
IsIndexed-event i (done r c) p v = v
IsIndexed-event i (retry m) p v = v

IsIndexed-from :
    (i : ℕ) (evs : List AgentEvent) (p : Pairing) → IsIndexed p → IsIndexed (pair_from i evs p)
unfolding pair_from
IsIndexed-from i [] p v = v
IsIndexed-from i (ev ∷ evs) p v =
    IsIndexed-from (suc i) evs (pair_event i ev p) (IsIndexed-event i ev p v)

pair_tools-IsPaired : (evs : List AgentEvent) → All IsPaired (pair_tools evs).entries
unfolding pair_tools lookup
pair_tools-IsPaired evs =
    (IsIndexed-from 0 evs no_pairing
      (record { points = λ k j h. absurd (none_not_some h); paired = tt })).paired

-- The rows of the rail hold the calls of the events, all of them, once and in their order, and each
-- row that has a call and a result is keyed by the id that the result carries; the errors and the
-- markers of truncation are shown as they came.
pub pair_tools-IsRail :
    (evs : List AgentEvent)
    → (calls (pair_tools evs).entries ≡ filter is_call evs)
      × All IsPaired (pair_tools evs).entries
      × ((pair_tools evs).errors ≡ filter is_error evs)
      × ((pair_tools evs).cuts ≡ filter is_cut evs)
pair_tools-IsRail evs = let (c, e, k) = pair_tools-Shows evs in (c, pair_tools-IsPaired evs, e, k)
