-- ===== src/CrossTabs/Tenure.antt =====
-- How long a tab is the leader (apps/web/src/core/lib/crossTabs.ts).
use agentgrove.Base.{
  ===_iff, ===_refl, Bool-cases, List, Str, [], ap, arith, false, foldl, inl, inr, ltb, refl, sym,
  true, ℕ, ◌+◌, ◌===◌, ◌∙◌, ◌∷◌, ◌≡◌, ◌≢◌, ◌≤◌, ◌⊎◌,
}
use agentgrove.CrossTabs.{
  Claim, Entry, Event, garbled, heart, is_leader, leader_ttl_ms, missing, on_unload, run_event,
  ticks, try_claim, unloads,
}

-- A run in which the tab `a`, whose last heartbeat is `ts`, stays open, and in which every tick of
-- another tab comes before that heartbeat is stale.
abbrev pub IsServed : Str → ℕ → List Event → Type 0
IsServed a ts [] = Unit
IsServed a ts (ticks id now ∷ events) =
    ((id ≡ a) × IsServed a now events)
    ⊎ ((id ≢ a) × (now ≤ ts + leader_ttl_ms) × IsServed a ts events)
IsServed a ts (unloads id ∷ events) = (id ≢ a) × IsServed a ts events

not_same : (a b : Str) → b ≢ a → (a === b) ≡ false
not_same a b h = ground (arith, ===_iff a b)

try_claim-own : (a : Str) (now ts : ℕ) → (try_claim a now (heart a ts)).entry ≡ heart a now
unfolding try_claim
try_claim-own a now ts = rw (try_claim, ===_refl) refl

try_claim-other :
    (a b : Str) (now ts : ℕ)
    → b ≢ a
    → now ≤ ts + leader_ttl_ms
    → try_claim b now (heart a ts)
      ≡ record { entry = heart a ts; leader = false; announced = false }
unfolding try_claim
try_claim-other a b now ts n h =
    let late : ltb (ts + leader_ttl_ms) now ≡ false = ground arith in
    rw (try_claim, not_same a b n, late) refl

on_unload-other : (a b : Str) (ts : ℕ) → b ≢ a → on_unload b (heart a ts) ≡ heart a ts
unfolding on_unload
on_unload-other a b ts n = rw (on_unload, not_same a b n) refl

-- A leader that stays open and whose heartbeat no other tab finds stale is the leader at the end of
-- every such run.
pub is_leader-run_event :
    (a : Str) (ts : ℕ) (events : List Event)
    → IsServed a ts events
    → is_leader a (foldl run_event (heart a ts) events) ≡ true
unfolding is_leader run_event
is_leader-run_event a ts [] h = ===_refl a
is_leader-run_event a ts (ticks id now ∷ events) (inl h) =
    let step : (try_claim id now (heart a ts)).entry ≡ heart a now =
      ap (λ x. (try_claim x now (heart a ts)).entry) h.0 ∙ try_claim-own a now ts in
    ap (λ e. is_leader a (foldl run_event e events)) step ∙ is_leader-run_event a now events h.1
is_leader-run_event a ts (ticks id now ∷ events) (inr h) =
    ap (λ (c : Claim). is_leader a (foldl run_event c.entry events))
      (try_claim-other a id now ts h.0 h.1)
    ∙ is_leader-run_event a ts events h.2
is_leader-run_event a ts (unloads id ∷ events) h =
    ap (λ e. is_leader a (foldl run_event e events)) (on_unload-other a id ts h.0)
    ∙ is_leader-run_event a ts events h.1

-- A tick tells a tab that it leads exactly when the entry then names the tab, unless the entry is
-- no JSON.
pub leader-try_claim :
    (id : Str) (now : ℕ) (e : Entry)
    → e ≢ garbled
    → (try_claim id now e).leader ≡ is_leader id (try_claim id now e).entry
unfolding try_claim is_leader
leader-try_claim id now missing h = sym (===_refl id)
leader-try_claim id now garbled h = absurd (h refl)
leader-try_claim id now (heart tab_id ts) h = elim (Bool-cases (tab_id === id)) [
  | inl e ↦ rw (try_claim, e) (sym (===_refl id))
  | inr e ↦ elim (Bool-cases (ltb (ts + leader_ttl_ms) now)) [
    | inl k ↦ rw (try_claim, e, k) (sym (===_refl id))
    | inr k ↦ rw (try_claim, e, k) (sym e)
  ]
]
