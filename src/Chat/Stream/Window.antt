-- ===== src/Chat/Stream/Window.antt =====
-- What a prompt keeps of a long run of events.
use agentgrove.Base.{
  All, All-append_left, Bool, List, [], add-one, ap, append-nil, append_assoc, arith, dec_lt, drop,
  drop-append, erase_idx, false, foldl, if◌then◌else◌, leb, length, length-append, length-drop, ltb,
  lt→ltb, refl, suc, sym, true, zero, ℕ, ℕ_discrete, ◌++◌, ◌+◌, ◌-◌, ◌<◌, ◌∙◌, ◌∷◌, ◌≡◌, ◌≤◌,
}
use agentgrove.Chat.Types.{AgentEvent, truncated}
use agentgrove.Chat.Stream.{append_event_bounded, evict}

abbrev pub is_truncated : AgentEvent → Bool
is_truncated (truncated dropped) = true
is_truncated _ = false

abbrev pub IsReal : AgentEvent → Type 0
IsReal ev = is_truncated ev ≡ false

-- All events of a turn, pushed one after the other.
abbrev pub append_all : ℕ → List AgentEvent → List AgentEvent → List AgentEvent
append_all max = foldl (λ events ev. append_event_bounded events ev max)

-- The same in one go: all of them, or a sentinel before the last `max - 1`.
abbrev pub window : ℕ → List AgentEvent → List AgentEvent
window max evs =
    if leb (length evs) max
    then evs
    else truncated (length evs - max) ∷ drop (length evs + 1 - max) evs

evict-real :
    (ev : AgentEvent) (rest : List AgentEvent)
    → IsReal ev
    → evict (ev ∷ rest) ≡ truncated 1 ∷ erase_idx rest 0
unfolding evict
evict-real (truncated n) rest h = cc
evict-real _ [] h = refl
evict-real _ (x ∷ rest) h = refl

module _ {ℓ} {A : Type ℓ} where
  erase_idx-drop : (k : ℕ) (xs : List A) → erase_idx (drop k xs) 0 ≡ drop (suc k) xs
  erase_idx-drop zero [] = refl
  erase_idx-drop zero (x ∷ xs) = refl
  erase_idx-drop (suc k) [] = refl
  erase_idx-drop (suc k) (x ∷ xs) = erase_idx-drop k xs

window_short : (max : ℕ) (evs : List AgentEvent) → length evs ≤ max → window max evs ≡ evs
window_short max evs h = ground arith

window_long :
    (max k : ℕ) (evs : List AgentEvent)
    → length evs ≡ max + suc k
    → window max evs ≡ truncated (suc k) ∷ drop (suc (suc k)) evs
window_long max k evs h =
    let d : length evs - max ≡ suc k = omega arith in
    let e : length evs + 1 - max ≡ suc (suc k) = omega arith in
    let f : leb (length evs) max ≡ false = ground arith in rw (f, d, e)

append_full :
    (max : ℕ) (evs : List AgentEvent) (ev : AgentEvent)
    → max ≤ length evs
    → append_event_bounded evs ev max ≡ evict evs ++ ev ∷ []
unfolding append_event_bounded
append_full max evs ev h = let f : ltb (length evs) max ≡ false = ground arith in rw f

append_room :
    (max : ℕ) (evs : List AgentEvent) (ev : AgentEvent)
    → length evs < max
    → append_event_bounded evs ev max ≡ evs ++ ev ∷ []
unfolding append_event_bounded
append_room max evs ev h = rw (lt→ltb _ _ h)

-- One more event, when the window is exactly full.
append-window_full :
    (m : ℕ) (pre : List AgentEvent) (ev : AgentEvent)
    → All IsReal pre
    → length pre ≡ suc (suc m)
    → append_event_bounded pre ev (suc (suc m)) ≡ window (suc (suc m)) (pre ++ ev ∷ [])
append-window_full m [] ev r h = absurd (omega arith)
append-window_full m (x ∷ []) ev r h = absurd (omega arith)
append-window_full m (x ∷ y ∷ pre) ev r h =
    append_full _ _ ev (omega arith)
    ∙ ap (λ es. es ++ ev ∷ []) (evict-real x (y ∷ pre) r.0)
    ∙ sym (
        window_long (suc (suc m)) 0 (x ∷ y ∷ pre ++ ev ∷ [])
          (omega (arith, length-append pre (ev ∷ []))))

-- One more event, when some have gone already.
append-window_over :
    (m k : ℕ) (pre : List AgentEvent) (ev : AgentEvent)
    → length pre ≡ suc (suc m) + suc k
    → append_event_bounded (window (suc (suc m)) pre) ev (suc (suc m))
      ≡ window (suc (suc m)) (pre ++ ev ∷ [])
unfolding evict
append-window_over m k pre ev h =
    let max : ℕ = suc (suc m) in
    ap (λ es. append_event_bounded es ev max) (window_long max k pre h)
    ∙ append_full max (truncated (suc k) ∷ drop (suc (suc k)) pre) ev
        (omega (arith, length-drop (suc (suc k)) pre))
    ∙ cc (
      erase_idx-drop (suc (suc k)) pre,
      drop-append (suc (suc (suc k))) pre (ev ∷ []) (omega arith),
      window_long max (suc k) (pre ++ ev ∷ []) (omega (arith, length-append pre (ev ∷ []))),
      add-one (suc k),
    )

append-window :
    (m : ℕ) (pre : List AgentEvent) (ev : AgentEvent)
    → All IsReal pre
    → append_event_bounded (window (suc (suc m)) pre) ev (suc (suc m))
      ≡ window (suc (suc m)) (pre ++ ev ∷ [])
append-window m pre ev r = elim (dec_lt (length pre) (suc (suc m))) [
  | yes p ↦
      ap (λ es. append_event_bounded es ev (suc (suc m))) (window_short _ pre (omega arith))
      ∙ append_room _ pre ev p
      ∙ sym (window_short _ (pre ++ ev ∷ []) (omega (arith, length-append pre (ev ∷ []))))
  | no p ↦ elim (ℕ_discrete (length pre) (suc (suc m))) [
    | yes q ↦
        ap (λ es. append_event_bounded es ev (suc (suc m))) (window_short _ pre (omega arith))
        ∙ append-window_full m pre ev r q
    | no q ↦ append-window_over m (length pre - suc (suc m) - 1) pre ev (omega arith)
  ]
]

append_all_from :
    (m : ℕ) (pre evs : List AgentEvent)
    → All IsReal (pre ++ evs)
    → append_all (suc (suc m)) (window (suc (suc m)) pre) evs ≡ window (suc (suc m)) (pre ++ evs)
append_all_from m pre [] r = rw append-nil
append_all_from m pre (ev ∷ evs) r =
    let e : (pre ++ ev ∷ []) ++ evs ≡ pre ++ ev ∷ evs = append_assoc pre (ev ∷ []) evs in
    let first : All IsReal pre = All-append_left IsReal pre (ev ∷ evs) r in
    rw (append-window m pre ev first, ← e) (append_all_from m (pre ++ ev ∷ []) evs (rw e r))

-- With room for two events or more, pushing a run of real events into an empty prompt keeps all of
-- them, or, past the cap, a sentinel and the last `max - 1`; the sentinel's count is then the
-- number of events above the cap, one less than the number that went.
pub append_all-window :
    (m : ℕ) (evs : List AgentEvent)
    → All IsReal evs
    → append_all (suc (suc m)) [] evs ≡ window (suc (suc m)) evs
append_all-window m evs r =
    rw (← window_short (suc (suc m)) [] (omega arith)) (append_all_from m [] evs r)

-- Past the cap the sentinel's count is one less than the number of events that went: the first
-- eviction takes two events and counts one.
pub append_all-lost :
    (m : ℕ) (evs : List AgentEvent)
    → All IsReal evs
    → suc (suc m) < length evs
    → (n : ℕ) × (kept : List AgentEvent) × (append_all (suc (suc m)) [] evs ≡ truncated n ∷ kept)
      × (length evs ≡ length kept + n + 1)
append_all-lost m evs r h =
    let k = length evs - suc (suc m) - 1 in
    (
      suc k,
      drop (suc (suc k)) evs,
      append_all-window m evs r ∙ window_long (suc (suc m)) k evs (omega arith),
      omega (arith, length-drop (suc (suc k)) evs),
    )
