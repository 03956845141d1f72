-- ===== src/Chat/Stream/Turns.antt =====
-- What the frames of a turn make the timeline say.
use agentgrove.Base.{
  ===_iff, ===_refl, Bool, Bool-cases, Dict, List, Str, [], any, ap, append-nil, append_assoc,
  arith, false, find, foldl, get_last?, get_last?-append, if◌then◌else◌, inl, inr, length, lookup,
  lookup-insert, lookup-remove, ltb, map, none, refl, remove, some, subst, sym, true, update_first,
  ℕ, ◌++◌, ◌===◌, ◌∙◌, ◌∷◌, ◌≡◌, ◌≢◌,
}
use agentgrove.Chat.Types.{
  AgentEvent, ChatStore, Prompt, WsFrame, done, error, has_id, is_terminal, max_events_in_view,
  retry, thinking, token,
}
use agentgrove.Chat.Reading.{assistant_text, is_prompt_pending, token_text}
use agentgrove.Chat.Stream.{
  append_event_bounded, append_live, apply_control, apply_event, apply_ws_frame, drop_live,
  ends_live, evict, push_event, text_or_empty,
}

-- One frame for each text, all of one prompt.
abbrev pub frames : (Str → AgentEvent) → Str → List Str → List WsFrame
frames kind pid = map (λ t. record { prompt_id = pid; event = kind t })

abbrev pub apply_frames : ChatStore → List WsFrame → ChatStore
apply_frames = foldl apply_ws_frame

abbrev pub join : List Str → Str
join [] = []
join (t ∷ ts) = t ++ join ts

lookup-append_live :
    (k j t : Str) (m : Dict Str)
    → lookup j (append_live k t m)
      ≡ (if k === j then some (text_or_empty (lookup k m) ++ t) else lookup j m)
unfolding append_live
lookup-append_live k j t m = lookup-insert k j _ m

lookup-token_frames :
    (pid : Str) (t : Str) (ts : List Str) (s : ChatStore)
    → lookup pid (apply_frames s (frames token pid (t ∷ ts))).live_tokens
      ≡ some (text_or_empty (lookup pid s.live_tokens) ++ join (t ∷ ts))
unfolding apply_ws_frame
lookup-token_frames pid t [] s = rw (lookup-append_live, ===_refl, append-nil)
lookup-token_frames pid t (u ∷ ts) s =
    lookup-token_frames pid u ts (apply_ws_frame s (record { prompt_id = pid; event = token t }))
    ∙ rw (lookup-append_live, ===_refl) (ap some (append_assoc _ t _))

-- The reply of a prompt whose tokens stream in is what was buffered before (nothing, at first)
-- followed by the texts of all the frames, whatever its recorded events say.
pub assistant_text-token_frames :
    (p : Prompt) (t : Str) (ts : List Str) (s : ChatStore)
    → assistant_text p (apply_frames s (frames token p.id (t ∷ ts))).live_tokens
      ≡ text_or_empty (lookup p.id s.live_tokens) ++ join (t ∷ ts)
unfolding assistant_text
assistant_text-token_frames p t ts s = rw (assistant_text, lookup-token_frames p.id t ts s)

get_last?-append_event_bounded :
    (evs : List AgentEvent) (ev : AgentEvent) (max : ℕ)
    → get_last? (append_event_bounded evs ev max) ≡ some ev
unfolding append_event_bounded
get_last?-append_event_bounded evs ev max = elim (Bool-cases (ltb (length evs) max)) [
  | inl e ↦ rw e (get_last?-append evs ev)
  | inr e ↦ rw e (get_last?-append (evict evs) ev)
]

get_last?-push_event : (ev : AgentEvent) (p : Prompt) → get_last? (push_event ev p).events ≡ some ev
unfolding push_event
get_last?-push_event (retry message) p = refl
get_last?-push_event _ p = get_last?-append_event_bounded p.events _ max_events_in_view

any_of_find :
    (q : Prompt → Bool) (ps : List Prompt) {p : Prompt} → find q ps ≡ some p → any q ps ≡ true
any_of_find q [] h = cc
any_of_find q (x ∷ ps) {p} h = ground (arith, any_of_find q ps {p = p})

find-update_first :
    (pid : Str) (ev : AgentEvent) (ps : List Prompt) {p : Prompt}
    → find (has_id pid) ps ≡ some p
    → find (has_id pid) (update_first (has_id pid) (push_event ev) ps) ≡ some (push_event ev p)
unfolding push_event
find-update_first pid ev [] h = cc
find-update_first pid ev (x ∷ ps) {p} h = ground (arith, find-update_first pid ev ps {p = p})

has_id_of_find :
    (pid : Str) (ps : List Prompt) {p : Prompt} → find (has_id pid) ps ≡ some p → p.id ≡ pid
has_id_of_find pid [] h = cc
has_id_of_find pid (x ∷ ps) {p} h = ground (arith, has_id_of_find pid ps {p = p}, ===_iff x.id pid)

lookup-remove_self {ℓ} : {V : Type ℓ} (k : Str) (m : Dict V) → lookup k (remove k m) ≡ none
lookup-remove_self k m = rw (lookup-remove, ===_refl)

ends_live_of_is_terminal : (ev : AgentEvent) → is_terminal ev ≡ true → ends_live ev ≡ true
ends_live_of_is_terminal (done result cost) h = refl
ends_live_of_is_terminal (error message) h = refl
ends_live_of_is_terminal _ h = cc

find-update_first_ne :
    (q pid : Str) (ev : AgentEvent) (ps : List Prompt)
    → q ≢ pid
    → find (has_id q) (update_first (has_id pid) (push_event ev) ps) ≡ find (has_id q) ps
unfolding push_event
find-update_first_ne q pid ev [] h = refl
find-update_first_ne q pid ev (p ∷ ps) h =
    ground (arith, find-update_first_ne q pid ev ps h, ===_iff p.id q, ===_iff p.id pid)

-- The store after a frame that ends the live buffers of a prompt which is there.
apply_control_ends :
    (ev : AgentEvent) (pid : Str) (s : ChatStore)
    → any (has_id pid) s.prompts ≡ true
    → ends_live ev ≡ true
    → apply_control ev pid s ≡ record s {
      prompts = update_first (has_id pid) (push_event ev) s.prompts;
      live_tokens = remove pid s.live_tokens;
      live_thinking = remove pid s.live_thinking;
    }
unfolding apply_control
apply_control_ends ev pid s a e = rw (a, e)

-- With no live buffer of its own left a prompt is judged and read by its events.
is_prompt_pending-remove :
    (p : Prompt) (ev : AgentEvent) (m n : Dict Str)
    → get_last? p.events ≡ some ev
    → is_terminal ev ≡ true
    → is_prompt_pending p (remove p.id m) (remove p.id n) true ≡ false
unfolding is_prompt_pending
is_prompt_pending-remove p ev m n h t = rw (lookup-remove_self, lookup-remove_self, h, t)

assistant_text-remove :
    (p : Prompt) (m : Dict Str) → assistant_text p (remove p.id m) ≡ token_text p.events
unfolding assistant_text
assistant_text-remove p m = rw (assistant_text, lookup-remove_self)

-- After a terminal frame of a known prompt the prompt is no longer pending, also where it is the
-- last one, and its reply is read from its recorded events.
pub apply_control-settles :
    (ev : AgentEvent) (pid : Str) (s : ChatStore) {p : Prompt}
    → is_terminal ev ≡ true
    → find (has_id pid) s.prompts ≡ some p
    → (find (has_id pid) (apply_control ev pid s).prompts ≡ some (push_event ev p))
      × (is_prompt_pending
            (push_event ev p)
            (apply_control ev pid s).live_tokens
            (apply_control ev pid s).live_thinking
            true
          ≡ false)
      × (assistant_text (push_event ev p) (apply_control ev pid s).live_tokens
          ≡ token_text (push_event ev p).events)
unfolding push_event
apply_control-settles ev pid s {p} t h =
    let known = any_of_find (has_id pid) s.prompts h in
    let q = push_event ev p in
    let same : q.id ≡ pid = has_id_of_find pid s.prompts h in
    rw (apply_control_ends ev pid s known (ends_live_of_is_terminal ev t)) (
      find-update_first pid ev s.prompts h,
      subst
          (λ k.
            is_prompt_pending q (remove k s.live_tokens) (remove k s.live_thinking) true ≡ false)
          same
          (is_prompt_pending-remove q ev s.live_tokens s.live_thinking (get_last?-push_event ev p)
            t),
      subst (λ k. assistant_text q (remove k s.live_tokens) ≡ token_text q.events) same
          (assistant_text-remove q s.live_tokens),
    )

-- The parts of the store that a frame of another prompt leaves alone.
pub record IsUntouched (q : Str) (s t : ChatStore) : Type 0 where
  pub prompt : find (has_id q) t.prompts ≡ find (has_id q) s.prompts
  pub tokens : lookup q t.live_tokens ≡ lookup q s.live_tokens
  pub thoughts : lookup q t.live_thinking ≡ lookup q s.live_thinking
  pub view : t.view ≡ s.view
  pub at_start : t.at_start ≡ s.at_start
  pub loading_older : t.loading_older ≡ s.loading_older

ne-=== : (a b : Str) → a ≢ b → (a === b) ≡ false
ne-=== a b h = ground (arith, ===_iff a b)

apply_control-IsUntouched :
    (q : Str) (ev : AgentEvent) (pid : Str) (s : ChatStore)
    → q ≢ pid
    → IsUntouched q s (apply_control ev pid s)
unfolding apply_control drop_live
apply_control-IsUntouched q ev pid s ne = ground (
  arith,
  find-update_first_ne q pid ev s.prompts ne,
  lookup-remove pid q s.live_tokens,
  lookup-remove pid q s.live_thinking,
  ne-=== pid q (λ x. ne (sym x)),
)

apply_event-IsUntouched :
    (q : Str) (ev : AgentEvent) (pid : Str) (s : ChatStore)
    → q ≢ pid
    → IsUntouched q s (apply_event ev pid s)
unfolding apply_event
apply_event-IsUntouched q (token text) pid s ne =
    ground (arith, lookup-append_live pid q text s.live_tokens, ne-=== pid q (λ x. ne (sym x)))
apply_event-IsUntouched q (thinking text) pid s ne =
    ground (arith, lookup-append_live pid q text s.live_thinking, ne-=== pid q (λ x. ne (sym x)))
apply_event-IsUntouched q ev pid s ne = apply_control-IsUntouched q ev pid s ne

-- A frame leaves every other prompt as it was: its record, its two live buffers, and with them the
-- loaded view and the paging flags.
pub apply_ws_frame-IsUntouched :
    (q : Str) (s : ChatStore) (f : WsFrame) → q ≢ f.prompt_id → IsUntouched q s (apply_ws_frame s f)
unfolding apply_ws_frame
apply_ws_frame-IsUntouched q s f ne = apply_event-IsUntouched q f.event f.prompt_id s ne
