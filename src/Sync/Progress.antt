-- ===== src/Sync/Progress.antt =====
-- The link between the instances comes back after every failure
-- (apps/web/src/core/lib/crossInstanceSync.ts).
use agentgrove.Base.{
  Bool, Bool-cases, In, List, Option, Option-cases, [], ap, arith, false, false≢true, here, inl,
  inr, min, none, refl, some, subst, suc, sym, there, true, ℕ, ◌*◌, ◌++◌, ◌∙◌, ◌∷◌, ◌≡◌, ◌≤◌, ◌⊎◌,
}
use agentgrove.Chat.Session.{Answer, failed, ok}
use agentgrove.Sync.{
  SyncLink, SyncReach, SyncStep, closes, connect, fires, has_socket, initial_link, install,
  installs, moves, on_close, on_open, on_timer, opens, reconnect_max, schedule_reconnect, stays,
}

abbrev is_set_timer : Option ℕ → Bool
is_set_timer none = false
is_set_timer (some delay) = true

abbrev Within : Option ℕ → Type 0
Within none = Unit
Within (some delay) = delay ≤ reconnect_max

-- A link that the page keeps: the caller has not closed it, the variable of the timer tells whether
-- the timer runs, and the delays are within the maximum.
pub record IsKept (l : SyncLink) : Type 0 where
  kept : l.closed_by_caller ≡ false
  timer : l.timer_set ≡ is_set_timer l.pending
  wait : Within l.pending
  delay : l.reconnect_delay ≤ reconnect_max

-- The link names a socket that lives.
abbrev pub IsConnected : SyncLink → Type 0
IsConnected l = (n : ℕ) × (l.socket ≡ some n) × In n l.live

-- The link is connected, or waits for its next attempt.
abbrev pub IsAlive : SyncLink → Type 0
IsAlive l = IsKept l × (IsConnected l ⊎ (l.timer_set ≡ true))

In-last {ℓ} : {A : Type ℓ} (x : A) (xs : List A) → In x (xs ++ x ∷ [])
In-last x [] = here refl
In-last x (y ∷ xs) = there (In-last x xs)

IsAlive-schedule_reconnect : (l : SyncLink) → IsKept l → IsAlive (schedule_reconnect l)
unfolding schedule_reconnect
IsAlive-schedule_reconnect l v = elim (Bool-cases l.timer_set) [
  | inl t ↦
      let at : schedule_reconnect l ≡ l = rw (schedule_reconnect, v.kept, t) refl in
      subst IsAlive (sym at) (v, inr t)
  | inr t ↦
      let at : schedule_reconnect l
          ≡ record l { timer_set = true; pending = some l.reconnect_delay } =
        rw (schedule_reconnect, v.kept, t) refl in
      subst IsAlive (sym at)
        (record { kept = v.kept; timer = refl; wait = v.delay; delay = v.delay }, inr refl)
]

IsAlive-connect :
    (answer : Answer (Unit {0})) (l : SyncLink) → IsKept l → IsAlive (connect answer l)
unfolding connect
IsAlive-connect (ok _) l v =
    let at : connect (ok tt) l ≡ record l {
      socket = some l.next_socket;
      live = l.live ++ l.next_socket ∷ [];
      next_socket = suc l.next_socket;
    } =
      rw (connect, v.kept) refl in
    subst IsAlive (sym at) (
      record { kept = v.kept; timer = v.timer; wait = v.wait; delay = v.delay },
      inl (l.next_socket, refl, In-last l.next_socket l.live),
    )
IsAlive-connect (failed message) l v =
    let at : connect (failed message) l ≡ schedule_reconnect l = rw (connect, v.kept) refl in
    subst IsAlive (sym at) (IsAlive-schedule_reconnect l v)

IsAlive-step : {k l : SyncLink} → SyncStep k l → IsAlive k → IsAlive l
unfolding on_open on_close on_timer install
IsAlive-step {k} (opens n i) (v, c) =
    (record { kept = v.kept; timer = v.timer; wait = v.wait; delay = omega arith }, c)
IsAlive-step {k} (closes n i) (v, c) =
    IsAlive-schedule_reconnect _
      (record { kept = v.kept; timer = v.timer; wait = v.wait; delay = v.delay })
IsAlive-step {k} (fires answer delay p) (v, c) =
    IsAlive-connect answer _
      (record { kept = v.kept; timer = refl; wait = tt; delay = omega arith })
IsAlive-step {k} (installs answer) (v, c) = elim (Bool-cases (has_socket k)) [
  | inl s ↦ let at : install answer k ≡ k = rw (install, s) refl in subst IsAlive (sym at) (v, c)
  | inr s ↦
      let at : install answer k ≡ connect answer (record k { closed_by_caller = false }) =
        rw (install, s) refl in
      subst IsAlive (sym at) (
        IsAlive-connect answer _
          (record { kept = refl; timer = v.timer; wait = v.wait; delay = v.delay }))
]

-- On every run of the events of a page that installs the link and keeps it, whatever fails, the
-- link has a socket that is not closed, or the timer of its next attempt runs.
SyncReach-IsAlive :
    (answer : Answer (Unit {0})) {l : SyncLink}
    → SyncReach (install answer initial_link) l
    → IsAlive l
unfolding install
SyncReach-IsAlive answer stays =
    IsAlive-connect answer (record initial_link { closed_by_caller = false })
      (record { kept = refl; timer = refl; wait = tt; delay = omega arith })
SyncReach-IsAlive answer (moves r s) = IsAlive-step s (SyncReach-IsAlive answer r)

timer_runs : (l : SyncLink) → IsKept l → l.timer_set ≡ true → (delay : ℕ) × (l.pending ≡ some delay)
timer_runs l v t = elim (Option-cases l.pending) [
  | inl e ↦ absurd (false≢true (sym (v.timer ∙ ap is_set_timer e) ∙ t))
  | inr (delay, e) ↦ (delay, e)
]

-- In every state that the page reaches by the events of a link that it installs and keeps, the link
-- has a socket that is not closed or the timer of its next attempt runs, within 10,000 ms, and there
-- is a run from there, where the server answers, to a link with a live socket that it names: the
-- link is never cut off for good.
pub SyncReach-reconnects :
    (answer : Answer (Unit {0})) {l : SyncLink}
    → SyncReach (install answer initial_link) l
    → IsAlive l × ((m : SyncLink) × SyncReach l m × IsConnected m)
unfolding on_timer
SyncReach-reconnects answer {l} r =
    let (v, c) = SyncReach-IsAlive answer r in
    (
      (v, c),
      elim c [
        | inl connected ↦ (l, stays, connected)
        | inr t ↦
            let (delay, p) = timer_runs l v t in
            let at : on_timer (ok tt) l ≡ record l {
              timer_set = false;
              pending = none;
              reconnect_delay = min (l.reconnect_delay * 2) reconnect_max;
              socket = some l.next_socket;
              live = l.live ++ l.next_socket ∷ [];
              next_socket = suc l.next_socket;
            } =
              rw (on_timer, connect, v.kept) refl in
            (
              on_timer (ok tt) l,
              moves stays (fires (ok tt) delay p),
              subst IsConnected (sym at) (l.next_socket, refl, In-last l.next_socket l.live),
            )
      ],
    )
