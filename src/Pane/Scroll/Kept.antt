-- ===== src/Pane/Scroll/Kept.antt =====
-- The timeline stays where the user reads (apps/web/src/shells/desktop/panes/ChatPane.tsx).
use agentgrove.Base.{
  Bool, Bool-cases, List, Option, Str, false, head?, if_false, if_true, inl, inr, length, ltb, none,
  refl, some, subst, sym, true, ℕ, ◌+◌, ◌==◌, ◌||◌, ◌≡◌,
}
use agentgrove.Pane.Scroll.{
  ScrollCommand, ScrollState, Scrolled, Viewport, distance, enforce_scroll_rule, follow_or_keep,
  is_anchored, is_ignored, on_frame, on_mutation, on_prompts, on_resize, on_scroll, pin_to_end,
  prompts_rule, resize_rule, same_id, set_top, settled_resize, to_end, window_ms,
}

-- The user has scrolled to the place, which is not the end.
abbrev pub IsReading : ℕ → ScrollState → Type 0
IsReading top s = (s.user_scroll_top ≡ some top) × (s.user_at_bottom ≡ false)

-- The command, where there is one, goes to the place.
abbrev pub IsTo : ℕ → Option ScrollCommand → Type 0
IsTo top none = Unit
IsTo top (some to_end) = ⊥
IsTo top (some (set_top t)) = t ≡ top

abbrev pub Keeps : ℕ → Scrolled → Type 0
Keeps top r = IsReading top r.0 × IsTo top r.1

Keeps-follow_or_keep :
    (top now len : ℕ) (o : Option ℕ) (s : ScrollState)
    → o ≡ some top
    → IsReading top s
    → Keeps top (follow_or_keep now len o s)
Keeps-follow_or_keep top now len o s e r =
    subst (λ k. Keeps top (follow_or_keep now len k s)) (sym e)
      (subst (Keeps top) (sym (if_false s.user_at_bottom _ _ r.1)) (r, refl))

Keeps-enforce_scroll_rule :
    (top now len : ℕ) (v : Viewport) (s : ScrollState)
    → IsReading top s
    → Keeps top (enforce_scroll_rule now len v s)
unfolding enforce_scroll_rule
Keeps-enforce_scroll_rule top now len v s r = elim (Bool-cases (v.client_height == 0)) [
  | inl e ↦ subst (Keeps top) (sym (if_true _ _ _ e)) (r, tt)
  | inr e ↦ subst (Keeps top) (sym (if_false _ _ _ e)) (Keeps-follow_or_keep top now len _ s r.0 r)
]

Keeps-settled_resize :
    (top now len : ℕ) (v : Viewport) (delta : ℕ) (s : ScrollState)
    → IsReading top s
    → Keeps top (settled_resize now len v delta s.user_scroll_top s)
Keeps-settled_resize top now len v delta s r =
    subst (λ k. Keeps top (settled_resize now len v delta k s)) (sym r.0)
      (Keeps-enforce_scroll_rule top now len v
        (record s { content_changed_until = now + window_ms delta }) r)

Keeps-resize_rule :
    (top now len : ℕ) (v : Viewport) (delta : ℕ) (o : Option ℕ) (s : ScrollState)
    → IsReading top s
    → Keeps top (resize_rule now len v delta o s)
Keeps-resize_rule top now len v delta none s r = Keeps-settled_resize top now len v delta s r
Keeps-resize_rule top now len v delta (some ends) s r = elim (Bool-cases (ltb now ends)) [
  | inl e ↦ subst (Keeps top) (sym (if_true _ _ _ e)) (
      subst (λ k. Keeps top (pin_to_end now k s)) (sym r.0)
        (subst (Keeps top) (sym (if_false s.user_at_bottom _ _ r.1)) (r, tt)))
  | inr e ↦
      subst (Keeps top) (sym (if_false _ _ _ e))
        (Keeps-settled_resize top now len v delta (record s { settling_until = none }) r)
]

-- What happens to the content while the user reads: mutations, resizes, the frames of the loop,
-- prompts that are added at the end, and scroll events that the code ignores.
pub data ContentStep (s : ScrollState) : Scrolled → Type 0 where
  mutates : (now len : ℕ) (v : Viewport) → ContentStep s (on_mutation now len v s)
  resizes : (now len : ℕ) (v : Viewport) → ContentStep s (on_resize now len v s)
  frames : (now ends len : ℕ) (v : Viewport) → ContentStep s (on_frame now ends len v s)
  grows :
      (now : ℕ) (ids : List Str)
      → (s.prev_length == 0) ≡ false
      → same_id (head? ids) s.prev_first_id ≡ true
      → ContentStep s ((on_prompts now ids s).0, none)
  ignores :
      (now : ℕ) (trusted at_start loading : Bool) (v : Viewport)
      → is_ignored now s ≡ true
      → ContentStep s ((on_scroll now trusted at_start loading v s).0, none)

prompts_rule-grows :
    (now : ℕ) (ids : List Str) (top : ℕ) (s : ScrollState)
    → (s.prev_length == 0) ≡ false
    → same_id (head? ids) s.prev_first_id ≡ true
    → IsReading top s
    → IsReading top (prompts_rule now ids s).0
prompts_rule-grows now ids top s p f r = elim (Bool-cases (ltb s.prev_length (length ids))) [
  | inl e ↦ rw (p, f, e) r
  | inr e ↦ rw (p, f, e) r
]

-- While the user reads a place that is not the end, whatever happens to the content, the place
-- stays the one the user chose, and the timeline is only ever sent to that place.
pub ContentStep-Keeps :
    (top : ℕ) {s : ScrollState} {r : Scrolled} → IsReading top s → ContentStep s r → Keeps top r
unfolding on_mutation on_resize on_frame on_prompts on_scroll
ContentStep-Keeps top {s} i (mutates now len v) =
    elim (Bool-cases (v.client_height == 0 || is_anchored s)) [
      | inl e ↦ subst (Keeps top) (sym (if_true _ _ _ e)) (i, tt)
      | inr e ↦ subst (Keeps top) (sym (if_false _ _ _ e)) (
          Keeps-follow_or_keep top now len _ (record s { content_changed_until = now + 300 }) i.0 i)
    ]
ContentStep-Keeps top {s} i (resizes now len v) =
    elim (Bool-cases
      (v.client_height == 0 || (is_anchored s || v.scroll_height == s.last_content_height))) [
        | inl e ↦ subst (Keeps top) (sym (if_true _ _ _ e)) (i, tt)
        | inr e ↦ subst (Keeps top) (sym (if_false _ _ _ e)) (
            Keeps-resize_rule top now len v (distance v.scroll_height s.last_content_height)
              s.settling_until
              (record s { last_content_height = v.scroll_height; wheel_active = false }) i)
      ]
ContentStep-Keeps top {s} i (frames now ends len v) = elim (Bool-cases (ltb ends now)) [
  | inl e ↦ subst (Keeps top) (sym (if_true _ _ _ e)) (i, tt)
  | inr e ↦ subst (Keeps top) (sym (if_false _ _ _ e)) (Keeps-enforce_scroll_rule top now len v s i)
]
ContentStep-Keeps top {s} i (grows now ids p f) = (prompts_rule-grows now ids top s p f i, tt)
ContentStep-Keeps top {s} i (ignores now trusted at_start loading v e) =
    subst (λ (x : ScrollState × Bool). Keeps top (x.0, none)) (sym (if_true _ _ _ e)) (i, tt)
