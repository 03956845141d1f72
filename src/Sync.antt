-- ===== src/Sync.antt =====
-- The link between the instances of the client: the socket of
-- apps/web/src/core/lib/crossInstanceSync.ts and what its frames do to the store. Sockets have
-- numbers; `live` are those that have not closed yet. The variable `reconnectTimer` and the timer
-- itself are apart: the dispose function clears the timer and leaves the variable.
pub mod Progress
pub mod Stuck
pub mod Frames
mod Examples
use agentgrove.Base.{
  Bool, In, List, Option, [], false, filter, if◌then◌else◌, min, none, not, some, suc, true, ℕ, ◌*◌,
  ◌++◌, ◌==◌, ◌||◌, ◌∷◌, ◌≡◌,
}
use agentgrove.Chat.Session.{Answer, failed, ok}

abbrev pub reconnect_base : ℕ
reconnect_base = 1000

abbrev pub reconnect_max : ℕ
reconnect_max = 10000

pub record SyncLink : Type 0 where
  pub next_socket : ℕ
  pub socket : Option ℕ
  pub live : List ℕ
  pub timer_set : Bool
  pub pending : Option ℕ
  pub reconnect_delay : ℕ
  pub closed_by_caller : Bool

abbrev pub initial_link : SyncLink
initial_link = record {
  next_socket = 0;
  socket = none;
  live = [];
  timer_set = false;
  pending = none;
  reconnect_delay = reconnect_base;
  closed_by_caller = false;
}

unfoldable pub schedule_reconnect : SyncLink → SyncLink
schedule_reconnect l =
    if l.closed_by_caller || l.timer_set
    then l
    else record l { timer_set = true; pending = some l.reconnect_delay }

-- `openWs` may throw.
unfoldable pub connect : Answer (Unit {0}) → SyncLink → SyncLink
unfolding schedule_reconnect
connect answer l = if l.closed_by_caller then l else elim answer [
  | ok _ ↦ record l {
    socket = some l.next_socket;
    live = l.live ++ l.next_socket ∷ [];
    next_socket = suc l.next_socket;
  }
  | failed message ↦ schedule_reconnect l
]

unfoldable pub on_open : SyncLink → SyncLink
on_open l = record l { reconnect_delay = reconnect_base }

-- The `close` event of any socket.
unfoldable pub on_close : ℕ → SyncLink → SyncLink
unfolding schedule_reconnect
on_close n l =
    schedule_reconnect (record l { live = filter (λ k. not (k == n)) l.live; socket = none })

unfoldable pub on_timer : Answer (Unit {0}) → SyncLink → SyncLink
unfolding connect
on_timer answer l = connect answer (record l {
  timer_set = false;
  pending = none;
  reconnect_delay = min (l.reconnect_delay * 2) reconnect_max;
})

abbrev pub has_socket : SyncLink → Bool
has_socket l = elim l.socket [ none ↦ false | some n ↦ true ]

-- `installCrossInstanceSync`, and the function that it returns.
unfoldable pub install : Answer (Unit {0}) → SyncLink → SyncLink
unfolding connect
install answer l =
    if has_socket l then l else connect answer (record l { closed_by_caller = false })

unfoldable pub dispose : SyncLink → SyncLink
dispose l = record l { closed_by_caller = true; pending = none; socket = none }

-- An event of a page that keeps the link.
pub data SyncStep (l : SyncLink) : SyncLink → Type 0 where
  opens : (n : ℕ) → In n l.live → SyncStep l (on_open l)
  closes : (n : ℕ) → In n l.live → SyncStep l (on_close n l)
  fires :
      (answer : Answer (Unit {0})) (delay : ℕ)
      → l.pending ≡ some delay
      → SyncStep l (on_timer answer l)
  installs : (answer : Answer (Unit {0})) → SyncStep l (install answer l)

pub data SyncReach (l : SyncLink) : SyncLink → Type 0 where
  stays : SyncReach l l
  moves : {k m : SyncLink} → SyncReach l k → SyncStep k m → SyncReach l m
