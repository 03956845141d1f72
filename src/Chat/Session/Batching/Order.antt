-- ===== src/Chat/Session/Batching/Order.antt =====
-- Batching changes when the timeline shows a frame, and not what it shows in the end.
use agentgrove.Base.{
  All, All-append, Bool-cases, List, [], ap, foldl, inl, inr, refl, true, ◌++◌, ◌∙◌, ◌∷◌, ◌≡◌,
}
use agentgrove.Chat.Types.{AgentEvent, ChatStore, WsFrame, thinking, token}
use agentgrove.Chat.Stream.{apply_ws_frame}
use agentgrove.Chat.Session.Batching.{
  Feed, add_thinking, add_token, commit, enqueue, flush, is_delta,
}
use agentgrove.Chat.Session.Batching.Merge.{add_thinking-Adds, add_token-Adds, foldl-merge_live}

abbrev IsDelta : WsFrame → Type 0
IsDelta f = is_delta f.event ≡ true

abbrev pub IsFeed : Feed → Type 0
IsFeed feed = All IsDelta feed.pending

-- The frames applied one by one as they come.
abbrev pub apply_all : ChatStore → List WsFrame → ChatStore
apply_all = foldl apply_ws_frame

-- A delta touches the two maps alone.
apply_ws_frame-delta :
    (s : ChatStore) (f : WsFrame)
    → IsDelta f
    → apply_ws_frame s f ≡ record s {
      live_tokens = add_token s.live_tokens f;
      live_thinking = add_thinking s.live_thinking f;
    }
unfolding apply_ws_frame add_token add_thinking
apply_ws_frame-delta s f h = on f.event h
  where
    on :
        (ev : AgentEvent)
        → is_delta ev ≡ true
        → apply_ws_frame s (record f { event = ev }) ≡ record s {
          live_tokens = add_token s.live_tokens (record f { event = ev });
          live_thinking = add_thinking s.live_thinking (record f { event = ev });
        }
    on (token text) h = refl
    on (thinking text) h = refl
    on _ h = cc

apply_all-deltas :
    (fs : List WsFrame) (s : ChatStore)
    → All IsDelta fs
    → apply_all s fs ≡ record s {
      live_tokens = foldl add_token s.live_tokens fs;
      live_thinking = foldl add_thinking s.live_thinking fs;
    }
apply_all-deltas [] s h = refl
apply_all-deltas (f ∷ fs) s h = rw (apply_ws_frame-delta s f h.0) (apply_all-deltas fs _ h.1)

commit_lem : (fs : List WsFrame) (s : ChatStore) → All IsDelta fs → commit fs s ≡ apply_all s fs
unfolding commit
commit_lem [] s h = refl
commit_lem (f ∷ fs) s h =
    rw
      (
        apply_all-deltas (f ∷ fs) s h,
        ← foldl-merge_live add_token add_token-Adds (f ∷ fs) [] s.live_tokens tt,
        ← foldl-merge_live add_thinking add_thinking-Adds (f ∷ fs) [] s.live_thinking tt,
      )
      refl

foldl-append {ℓ κ} :
    {A : Type ℓ} {B : Type κ} (g : B → A → B) (b : B) (xs ys : List A)
    → foldl g b (xs ++ ys) ≡ foldl g (foldl g b xs) ys
foldl-append g b [] ys = refl
foldl-append g b (x ∷ xs) ys = foldl-append g (g b x) xs ys

enqueue_step :
    (feed : Feed) (f : WsFrame)
    → IsFeed feed
    → IsFeed (enqueue feed f)
      × (apply_all (enqueue feed f).store (enqueue feed f).pending
          ≡ apply_ws_frame (apply_all feed.store feed.pending) f)
unfolding enqueue
enqueue_step feed f h = elim (Bool-cases (is_delta f.event)) [
  | inl e ↦ rw e (
    All-append IsDelta feed.pending (f ∷ []) h (e, tt),
    foldl-append apply_ws_frame feed.store feed.pending (f ∷ []),
  )
  | inr e ↦ rw e (tt, ap (λ s. apply_ws_frame s f) (commit_lem feed.pending feed.store h))
]

-- However the frames of a stream are batched, once the buffer is flushed the timeline is the one
-- that applying all of them one by one, in order, gives.
pub flush-enqueue :
    (frames : List WsFrame) (feed : Feed)
    → IsFeed feed
    → (flush (foldl enqueue feed frames)).store
      ≡ apply_all (apply_all feed.store feed.pending) frames
unfolding flush
flush-enqueue [] feed h = commit_lem feed.pending feed.store h
flush-enqueue (f ∷ frames) feed h =
    let (kept, same) = enqueue_step feed f h in
    flush-enqueue frames (enqueue feed f) kept ∙ ap (λ s. apply_all s frames) same
