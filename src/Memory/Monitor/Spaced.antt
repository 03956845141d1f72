-- ===== src/Memory/Monitor/Spaced.antt =====
-- How often the monitor warns (apps/web/src/core/lib/memMonitor.ts).
use agentgrove.Base.{
  All, Bool, Bool-cases, List, Option, [], ap, arith, false, false≢true, if_true, inl, inr, leb,
  length, length-append, ltb, ltb→lt, lt→ltb, none, refl, some, suc, sym, true, ℕ, ◌++◌, ◌+◌, ◌-◌,
  ◌∙◌, ◌∷◌, ◌≡◌, ◌≤◌,
}
use agentgrove.Memory.Monitor.{
  Monitor, Report, Sample, growth, heartbeat, push_sample, report_ms, sustained_climb, tick,
}

abbrev pub is_growth : Option Report → Bool
is_growth none = false
is_growth (some (growth s)) = true
is_growth (some (heartbeat s)) = false

length-push_sample :
    (s : Sample) (ring : List Sample) (n : ℕ)
    → length ring ≤ n
    → suc n ≤ 8
    → length (push_sample s ring) ≤ suc n
length-push_sample s ring n le le8 =
    let size = length-append ring (s ∷ []) in
    let fits : ltb 8 (length (ring ++ s ∷ [])) ≡ false =
      ground (arith, ltb→lt 8 (length (ring ++ s ∷ [])), size, le, le8) in
    rw fits (omega (arith, size, le))

sustained_climb-short : (ring : List Sample) → length ring ≤ 7 → sustained_climb ring ≡ false
unfolding sustained_climb
sustained_climb-short ring le =
    if_true (ltb (length ring) 8) _ _ (lt→ltb (length ring) 8 (omega (arith, le)))

-- A tick of a ring that is not about to be full.
tick-quiet :
    (now n : ℕ) (s : Sample) (m : Monitor)
    → length m.ring ≤ n
    → suc n ≤ 7
    → (length (tick now s m).0.ring ≤ suc n) × (is_growth (tick now s m).1 ≡ false)
unfolding tick
tick-quiet now n s m le le7 =
    let size : length (push_sample s m.ring) ≤ suc n =
      length-push_sample s m.ring n le (omega (arith, le7)) in
    let calm : sustained_climb (push_sample s m.ring) ≡ false =
      sustained_climb-short (push_sample s m.ring) (omega (arith, size, le7)) in
    elim (Bool-cases (leb report_ms (now - m.last_report))) [
      | inl e ↦ rw (tick, calm, e) (size, refl)
      | inr e ↦ rw (tick, calm, e) (size, refl)
    ]

-- The ticks one after the other, and what they report.
abbrev pub reports : List (ℕ × Sample) → Monitor → List (Option Report)
reports [] m = []
reports ((now, s) ∷ later) m = (tick now s m).1 ∷ reports later (tick now s m).0

abbrev pub IsQuiet : Option Report → Type 0
IsQuiet r = is_growth r ≡ false

reports-IsQuiet :
    (n : ℕ) (later : List (ℕ × Sample)) (m : Monitor)
    → length m.ring ≤ n
    → n + length later ≤ 7
    → All IsQuiet (reports later m)
reports-IsQuiet n [] m le short = tt
reports-IsQuiet n ((now, s) ∷ later) m le short =
    let (size, calm) = tick-quiet now n s m le (omega (arith, short)) in
    (calm, reports-IsQuiet (suc n) later (tick now s m).0 size (omega (arith, short)))

ring-growth :
    (now : ℕ) (s : Sample) (m : Monitor)
    → is_growth (tick now s m).1 ≡ true
    → (tick now s m).0.ring ≡ []
unfolding tick
ring-growth now s m h = elim (Bool-cases (sustained_climb (push_sample s m.ring))) [
  | inl e ↦ rw (tick, e) refl
  | inr e ↦ elim (Bool-cases (leb report_ms (now - m.last_report))) [
    | inl k ↦ absurd (false≢true (sym (rw (tick, e, k) refl) ∙ h))
    | inr k ↦ absurd (false≢true (sym (rw (tick, e, k) refl) ∙ h))
  ]
]

-- After a tick that warns of growth, the next ticks, up to seven, warn of none, whatever they measure
-- and whenever they come.
pub tick-IsQuiet :
    (now : ℕ) (s : Sample) (later : List (ℕ × Sample)) (m : Monitor)
    → is_growth (tick now s m).1 ≡ true
    → length later ≤ 7
    → All IsQuiet (reports later (tick now s m).0)
tick-IsQuiet now s later m h le =
    let empty : length (tick now s m).0.ring ≡ 0 = ap length (ring-growth now s m h) in
    reports-IsQuiet 0 later (tick now s m).0 (omega (arith, empty)) (omega (arith, le))
