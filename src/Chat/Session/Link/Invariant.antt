-- ===== src/Chat/Session/Link/Invariant.antt =====
-- The invariant of the link of a chat, and the events that keep it whatever the messages are
-- (apps/web/src/core/chat/createChatSession.ts).
use agentgrove.Base.{
  Bool, Bool-cases, Option, Str, [], ap, ap₂, arith, false, false≢true, inl, inr, min, none, refl,
  some, subst, sym, true, ℕ, ◌*◌, ◌+◌, ◌∙◌, ◌≡◌, ◌≤◌,
}
use agentgrove.Chat.Session.Batching.{Feed, commit, flush}
use agentgrove.Chat.Session.Batching.{Feed, commit, flush}
use agentgrove.Chat.Types.{ChatStore}
use agentgrove.Chat.Session.{Answer, failed, ok}
use agentgrove.Chat.Session.Link.{
  Link, connect, on_close, on_connect_timer, on_open, on_reconnect_timer, reconnect_base_ms,
  reconnect_max_ms,
}

abbrev pub one_if : Bool → ℕ
one_if true = 1
one_if false = 0

abbrev pub one_if_set : Option ℕ → ℕ
one_if_set none = 0
one_if_set (some d) = 1

abbrev pub IsDelay : Option ℕ → Type 0
IsDelay none = Unit
IsDelay (some d) = (reconnect_base_ms ≤ d) × (d ≤ reconnect_max_ms)

-- `single`: of the first connection, the socket and the timer of the next attempt there is one at
-- most; `quiet`: after the clean-up no timer is set and no frame waits.
pub record IsLink (l : Link) : Type 0 where
  pub delay : IsDelay (some l.reconnect_delay)
  pub timer : IsDelay l.reconnect_timer
  pub single : one_if l.connect_armed + one_if l.has_socket + one_if_set l.reconnect_timer ≤ 1
  pub quiet :
      l.closed ≡ true
      → (l.connect_armed ≡ false)
        × (l.reconnect_timer ≡ none)
        × (l.feed.pending ≡ [])
        × (l.feed.armed ≡ false)

pub one_if_le : (b : Bool) → one_if b ≤ 1
one_if_le true = omega arith
one_if_le false = omega arith

connect_closed : (answer : Answer (Unit {0})) (l : Link) → l.closed ≡ true → connect answer l ≡ l
unfolding connect
connect_closed answer l c = rw (connect, c) refl

connect_ok : (l : Link) → l.closed ≡ false → connect (ok tt) l ≡ record l { has_socket = true }
unfolding connect
connect_ok l c = rw (connect, c) refl

connect_failed :
    (message : Str) (l : Link)
    → l.closed ≡ false
    → connect (failed message) l ≡ record l { error_message = some message }
unfolding connect
connect_failed message l c = rw (connect, c) refl

-- A connection is begun where neither timer is set and no socket is there.
IsLink-connect :
    (answer : Answer (Unit {0})) (l : Link)
    → IsLink l
    → one_if l.connect_armed + one_if l.has_socket + one_if_set l.reconnect_timer ≡ 0
    → IsLink (connect answer l)
IsLink-connect answer l v z = elim (Bool-cases l.closed) [
  | inl c ↦ subst IsLink (sym (connect_closed answer l c)) v
  | inr c ↦ begun answer c
]
  where
    begun : (a : Answer (Unit {0})) → l.closed ≡ false → IsLink (connect a l)
    begun (ok _) c = subst IsLink (sym (connect_ok l c)) (record {
      delay = v.delay;
      timer = v.timer;
      single = omega (arith, z);
      quiet = λ q. absurd (false≢true (sym c ∙ q));
    })
    begun (failed message) c =
        subst IsLink (sym (connect_failed message l c))
          (record { delay = v.delay; timer = v.timer; single = v.single; quiet = v.quiet })

pub IsLink-on_connect_timer :
    (answer : Answer (Unit {0})) (l : Link)
    → l.connect_armed ≡ true
    → IsLink l
    → IsLink (on_connect_timer answer l)
unfolding on_connect_timer
IsLink-on_connect_timer answer l a v =
    let one : one_if l.connect_armed ≡ 1 = ap one_if a in
    IsLink-connect answer (record l { connect_armed = false })
      (record {
        delay = v.delay;
        timer = v.timer;
        single = omega (arith, v.single);
        quiet = λ q. (refl, (v.quiet q).1, (v.quiet q).2, (v.quiet q).3);
      })
      (omega (arith, v.single, one))

pub IsLink-on_reconnect_timer :
    (answer : Answer (Unit {0})) (delay : ℕ) (l : Link)
    → l.reconnect_timer ≡ some delay
    → IsLink l
    → IsLink (on_reconnect_timer answer l)
unfolding on_reconnect_timer
IsLink-on_reconnect_timer answer delay l t v =
    let one : one_if_set l.reconnect_timer ≡ 1 = ap one_if_set t in
    IsLink-connect answer
      (record l {
        reconnect_timer = none;
        reconnect_delay = min (l.reconnect_delay * 2) reconnect_max_ms;
      })
      (record {
        delay = (omega (arith, v.delay.0, v.delay.1), omega arith);
        timer = tt;
        single = omega (arith, v.single, one);
        quiet = λ q. ((v.quiet q).0, refl, (v.quiet q).2, (v.quiet q).3);
      })
      (omega (arith, v.single, one))

pub IsLink-on_open : (l : Link) → IsLink l → IsLink (on_open l)
unfolding on_open
IsLink-on_open l v = record {
  delay = (omega arith, omega arith);
  timer = v.timer;
  single = v.single;
  quiet = v.quiet;
}

pub IsLink-on_close : (l : Link) → l.has_socket ≡ true → IsLink l → IsLink (on_close l)
unfolding on_close
IsLink-on_close l s v =
    let one : one_if l.has_socket ≡ 1 = ap one_if s in
    elim (Bool-cases l.closed) [
      | inl c ↦
          let at : on_close l ≡ record l { has_socket = false } = rw (on_close, c) refl in
          subst IsLink (sym at) (record {
            delay = v.delay;
            timer = v.timer;
            single = omega (arith, v.single);
            quiet = v.quiet;
          })
      | inr c ↦
          let at : on_close l
              ≡ record l { has_socket = false; reconnect_timer = some l.reconnect_delay } =
            rw (on_close, c) refl in
          subst IsLink (sym at) (record {
            delay = v.delay;
            timer = v.delay;
            single = omega (arith, v.single, one);
            quiet = λ q. absurd (false≢true (sym c ∙ q));
          })
    ]

-- An open link may change its feed.
pub IsLink-feed :
    (l : Link) (feed : Feed) → l.closed ≡ false → IsLink l → IsLink (record l { feed = feed })
IsLink-feed l feed c v = record {
  delay = v.delay;
  timer = v.timer;
  single = v.single;
  quiet = λ q. absurd (false≢true (sym c ∙ q));
}

abbrev idle : ChatStore → Feed
idle s = record { store = s; pending = []; armed = false }

-- A flush of a feed without frames and without timer changes nothing.
pub flush_idle : (feed : Feed) → feed.pending ≡ [] → feed.armed ≡ false → flush feed ≡ feed
unfolding flush commit
flush_idle feed p a =
    ap (λ ps. idle (commit ps feed.store)) p
    ∙ ap₂ (λ ps b. record { store = feed.store; pending = ps; armed = b }) (sym p) (sym a)
