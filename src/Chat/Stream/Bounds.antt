-- ===== src/Chat/Stream/Bounds.antt =====
-- What every frame keeps: the cap on the events of a prompt, and the prompts themselves.
use agentgrove.Base.{
  All, All-update_first, Bool, Bool-cases, List, Str, [], any, arith, dec_lt, false, if◌then◌else◌,
  inl, inr, length, length-append, ltb, lt→ltb, map, refl, suc, update_first, ℕ, ◌<◌, ◌∷◌, ◌≡◌, ◌≤◌,
}
use agentgrove.Chat.Types.{
  AgentEvent, ChatStore, Prompt, WsFrame, has_id, max_events_in_view, retry, thinking, token,
  truncated,
}
use agentgrove.Chat.Stream.{
  append_event_bounded, apply_control, apply_event, apply_ws_frame, evict, push_event,
}

-- No prompt holds more events than the cap.
abbrev pub IsCapped : Prompt → Type 0
IsCapped p = length p.events ≤ max_events_in_view

length-evict : (evs : List AgentEvent) → 1 < length evs → suc (length (evict evs)) ≡ length evs
unfolding evict
length-evict [] h = absurd (omega arith)
length-evict (x ∷ []) h = absurd (omega arith)
length-evict (truncated n ∷ y ∷ evs) h = refl
length-evict (_ ∷ y ∷ evs) h = refl

-- An append under a cap of two or more never passes it.
pub length-append_event_bounded :
    (evs : List AgentEvent) (ev : AgentEvent) (max : ℕ)
    → 1 < max
    → length evs ≤ max
    → length (append_event_bounded evs ev max) ≤ max
unfolding append_event_bounded
length-append_event_bounded evs ev max two h = elim (dec_lt (length evs) max) [
  | yes p ↦ rw (lt→ltb _ _ p) (omega (arith, length-append evs (ev ∷ [])))
  | no p ↦
      let f : ltb (length evs) max ≡ false = ground arith in
      rw f (omega (arith, length-append (evict evs) (ev ∷ []), length-evict evs))
]

push_event-IsCapped : (ev : AgentEvent) (p : Prompt) → IsCapped p → IsCapped (push_event ev p)
unfolding push_event
push_event-IsCapped (retry message) p h = omega arith
push_event-IsCapped _ p h =
    length-append_event_bounded p.events _ max_events_in_view (omega arith) h

abbrev pub ids : List Prompt → List Str
ids = map (λ p. p.id)

ids-update_first :
    (q : Prompt → Bool) (ev : AgentEvent) (ps : List Prompt)
    → ids (update_first q (push_event ev) ps) ≡ ids ps
unfolding push_event
ids-update_first q ev [] = refl
ids-update_first q ev (p ∷ ps) = ground (arith, ids-update_first q ev ps)

-- The prompts after a frame, whatever it is: the one that it names takes the event.
pub prompts-apply_control :
    (ev : AgentEvent) (pid : Str) (s : ChatStore)
    → (apply_control ev pid s).prompts ≡ (
        if any (has_id pid) s.prompts
        then update_first (has_id pid) (push_event ev) s.prompts
        else s.prompts)
unfolding apply_control
prompts-apply_control ev pid s = ground arith

apply_control_keeps :
    (ev : AgentEvent) (pid : Str) (s : ChatStore)
    → All IsCapped s.prompts
    → All IsCapped (apply_control ev pid s).prompts
      × (ids (apply_control ev pid s).prompts ≡ ids s.prompts)
apply_control_keeps ev pid s h =
    let named = has_id pid in
    rw (prompts-apply_control ev pid s) (elim (Bool-cases (any named s.prompts)) [
      | inl e ↦ rw e (
        All-update_first IsCapped named (push_event ev) (push_event-IsCapped ev) s.prompts h,
        ids-update_first named ev s.prompts,
      )
      | inr e ↦ rw e (h, refl)
    ])

apply_event_keeps :
    (ev : AgentEvent) (pid : Str) (s : ChatStore)
    → All IsCapped s.prompts
    → All IsCapped (apply_event ev pid s).prompts
      × (ids (apply_event ev pid s).prompts ≡ ids s.prompts)
unfolding apply_event
apply_event_keeps (token text) pid s h = (h, refl)
apply_event_keeps (thinking text) pid s h = (h, refl)
apply_event_keeps ev pid s h = apply_control_keeps ev pid s h

-- A frame leaves every prompt within the cap on events and keeps the prompts, in their order.
pub apply_ws_frame-IsCapped :
    (s : ChatStore) (f : WsFrame)
    → All IsCapped s.prompts
    → All IsCapped (apply_ws_frame s f).prompts × (ids (apply_ws_frame s f).prompts ≡ ids s.prompts)
unfolding apply_ws_frame
apply_ws_frame-IsCapped s f h = apply_event_keeps f.event f.prompt_id s h
