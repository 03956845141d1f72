-- ===== src/Chat/Session/Link/Life.antt =====
-- The life of the link of a chat, from its first connection to the clean-up
-- (apps/web/src/core/chat/createChatSession.ts).
use agentgrove.Base.{
  Bool-cases, Option, Option-cases, Str, ap, arith, false, false≢true, if_false, inl, inr,
  none_not_some, refl, subst, sym, true, ◌∙◌, ◌≡◌,
}
use agentgrove.Chat.Session.Batching.{Feed, enqueue, flush}
use agentgrove.Base.Json.{Json}
use agentgrove.Chat.Frames.{Message, RawFrame, parse_ws_frame}
use agentgrove.Chat.Session.Batching.{Feed, enqueue, flush}
use agentgrove.Chat.Types.{ChatStore, WsFrame}
use agentgrove.Chat.Session.Link.{
  Link, LinkReach, LinkStep, Signal, cleans, cleanup, connects, drops, flushes, fresh_link, moves,
  on_close, on_connect_timer, on_flush_timer, on_message, on_open, on_reconnect_timer, opens,
  receives, retries, signal_of, stays,
}
use agentgrove.Chat.Session.Link.Invariant.{
  IsLink, IsLink-feed, IsLink-on_close, IsLink-on_connect_timer, IsLink-on_open,
  IsLink-on_reconnect_timer, flush_idle, one_if_le,
}

module _ (parse : Str → Option Json) (decode : RawFrame → WsFrame) where
  on_message_closed :
      (m : Message) (l : Link) → l.closed ≡ true → (on_message parse decode m l).0 ≡ l
  unfolding on_message
  on_message_closed m l c = rw (on_message, c) refl

  -- Of an open link a message changes nothing but the feed.
  on_message_open :
      (m : Message) (l : Link)
      → l.closed ≡ false
      → (feed : Feed) × ((on_message parse decode m l).0 ≡ record l { feed = feed })
  unfolding on_message
  on_message_open m l c = elim (Option-cases (signal_of parse m)) [
    | inr (signal, e) ↦
        (l.feed, ap (λ (t : Link × Option Signal). t.0) (if_false l.closed _ _ c) ∙ rw e refl)
    | inl e ↦ elim (Option-cases (parse_ws_frame parse m)) [
      | inl k ↦ (
        l.feed,
        ap (λ (t : Link × Option Signal). t.0) (if_false l.closed _ _ c) ∙ rw (e, k) refl,
      )
      | inr (f, k) ↦ (
        enqueue l.feed (decode f),
        ap (λ (t : Link × Option Signal). t.0) (if_false l.closed _ _ c) ∙ rw (e, k) refl,
      )
    ]
  ]

  IsLink-on_message : (m : Message) (l : Link) → IsLink l → IsLink (on_message parse decode m l).0
  IsLink-on_message m l v = elim (Bool-cases l.closed) [
    | inl c ↦ subst IsLink (sym (on_message_closed m l c)) v
    | inr c ↦ let (feed, e) = on_message_open m l c in subst IsLink (sym e) (IsLink-feed l feed c v)
  ]

  IsLink-step : {k l : Link} → LinkStep parse decode k l → IsLink k → IsLink l
  unfolding on_flush_timer cleanup flush
  IsLink-step {k} (connects answer a) v = IsLink-on_connect_timer answer k a v
  IsLink-step {k} (opens s) v = IsLink-on_open k v
  IsLink-step {k} (receives m s) v = IsLink-on_message m k v
  IsLink-step {k} (drops s) v = IsLink-on_close k s v
  IsLink-step {k} (retries answer delay t) v = IsLink-on_reconnect_timer answer delay k t v
  IsLink-step {k} (flushes a) v = record {
    delay = v.delay;
    timer = v.timer;
    single = v.single;
    quiet = λ q. ((v.quiet q).0, (v.quiet q).1, refl, refl);
  }
  IsLink-step {k} cleans v = record {
    delay = v.delay;
    timer = tt;
    single = omega (arith, one_if_le k.has_socket);
    quiet = λ q. (refl, refl, refl, refl);
  }

  -- On every run of a fresh link: the delays are within their bounds; of the first connection, the
  -- socket and the timer of the next attempt there is one at most; and after the clean-up no timer
  -- is set and no frame waits.
  pub LinkReach-IsLink :
      (s : ChatStore) {l : Link} → LinkReach parse decode (fresh_link s) l → IsLink l
  LinkReach-IsLink s r = reached r
    where
      fresh : IsLink (fresh_link s)
      fresh = record {
        delay = (omega arith, omega arith);
        timer = tt;
        single = omega arith;
        quiet = λ q. absurd (false≢true q);
      }

      reached : {k : Link} → LinkReach parse decode (fresh_link s) k → IsLink k
      reached stays = fresh
      reached (moves r t) = IsLink-step t (reached r)

  -- After the clean-up no event changes the chat store: of a link that is closed and meets the
  -- invariant each step leaves the feed as it is, and the link closed.
  pub step_closed :
      {k l : Link}
      → LinkStep parse decode k l
      → IsLink k
      → k.closed ≡ true
      → (l.feed ≡ k.feed) × (l.closed ≡ true)
  unfolding on_connect_timer on_open on_reconnect_timer on_flush_timer on_close cleanup flush
  step_closed {k} (connects answer a) v c = absurd (false≢true (sym (v.quiet c).0 ∙ a))
  step_closed {k} (opens s) v c = (refl, c)
  step_closed {k} (receives m s) v c =
      let e = on_message_closed m k c in
      (ap (λ (x : Link). x.feed) e, ap (λ (x : Link). x.closed) e ∙ c)
  step_closed {k} (drops s) v c =
      let at : on_close k ≡ record k { has_socket = false } = rw (on_close, c) refl in
      (ap (λ (x : Link). x.feed) at, ap (λ (x : Link). x.closed) at ∙ c)
  step_closed {k} (retries answer delay t) v c = absurd (none_not_some (sym (v.quiet c).1 ∙ t))
  step_closed {k} (flushes a) v c = absurd (false≢true (sym (v.quiet c).3 ∙ a))
  step_closed {k} cleans v c = (flush_idle k.feed (v.quiet c).2 (v.quiet c).3, refl)
