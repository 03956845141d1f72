-- ===== src/Chat/Session/Link/Backoff.antt =====
-- The delays between the attempts to reconnect (apps/web/src/core/chat/createChatSession.ts).
use agentgrove.Base.{
  ap, arith, dec_lt, false, min, refl, suc, sym, zero, ℕ, ◌*◌, ◌+◌, ◌^◌, ◌∙◌, ◌≡◌, ◌≤◌,
}
use agentgrove.Chat.Session.{ok}
use agentgrove.Chat.Session.Link.{Link, connect, on_close, on_reconnect_timer, reconnect_max_ms}

-- A socket that closes before it has opened, and the next attempt.
abbrev pub failed_attempt : Link → Link
failed_attempt l = on_reconnect_timer (ok tt) (on_close l)

abbrev pub attempts : ℕ → Link → Link
attempts zero l = l
attempts (suc n) l = attempts n (failed_attempt l)

failed_attempt_delay :
    (l : Link)
    → l.closed ≡ false
    → ((failed_attempt l).closed ≡ false)
      × ((failed_attempt l).reconnect_delay ≡ min (l.reconnect_delay * 2) reconnect_max_ms)
unfolding on_reconnect_timer on_close connect
failed_attempt_delay l c = (rw (on_close, connect, c) refl, rw (on_close, connect, c) refl)

two_pow_suc : (n : ℕ) → 2 ^ suc n ≡ 2 ^ n + 2 ^ n
two_pow_suc n = omega arith

two_pow_pos : (n : ℕ) → 1 ≤ 2 ^ n
two_pow_pos zero = omega arith
two_pow_pos (suc n) = omega (arith, two_pow_pos n, two_pow_suc n)

reassociate : (delay n : ℕ) → delay * 2 ^ suc n ≡ delay * 2 * 2 ^ n
reassociate delay n = ap (delay *◌) (two_pow_suc n) ∙ grind arith

mul_bound : (b a p : ℕ) → b ≤ a → 1 ≤ p → b ≤ a * p
mul_bound b a zero h k = absurd (omega arith)
mul_bound b a (suc p) h k = grind arith

doubled :
    (delay n next : ℕ)
    → next ≡ min (delay * 2) reconnect_max_ms
    → min (next * 2 ^ n) reconnect_max_ms ≡ min (delay * 2 ^ suc n) reconnect_max_ms
doubled delay n next e = elim (dec_lt reconnect_max_ms (delay * 2)) [
  | yes l ↦ omega (
    arith,
    reassociate delay n,
    mul_bound reconnect_max_ms next (2 ^ n) (omega arith) (two_pow_pos n),
    mul_bound reconnect_max_ms (delay * 2) (2 ^ n) (omega arith) (two_pow_pos n),
  )
  | no k ↦
      let same : next ≡ delay * 2 = omega arith in
      ap (λ x. min (x * 2 ^ n) reconnect_max_ms) same
      ∙ ap (λ x. min x reconnect_max_ms) (sym (reassociate delay n))
]

-- After n attempts in a row that fail the delay is the one before them doubled n times, up to the
-- maximum.
pub reconnect_delay-attempts :
    (n : ℕ) (l : Link)
    → l.closed ≡ false
    → l.reconnect_delay ≤ reconnect_max_ms
    → (attempts n l).reconnect_delay ≡ min (l.reconnect_delay * 2 ^ n) reconnect_max_ms
reconnect_delay-attempts zero l c h = omega arith
reconnect_delay-attempts (suc n) l c h =
    let (c', d) = failed_attempt_delay l c in
    reconnect_delay-attempts n (failed_attempt l) c' (omega (arith, d))
    ∙ doubled l.reconnect_delay n _ d
