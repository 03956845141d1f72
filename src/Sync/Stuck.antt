-- ===== src/Sync/Stuck.antt =====
-- What the dispose function of the link leaves behind (apps/web/src/core/lib/crossInstanceSync.ts).
use agentgrove.Base.{==_iff, [], false, none, refl, subst, suc, sym, true, ◌==◌, ◌≡◌}
use agentgrove.Chat.Session.{ok}
use agentgrove.Sync.{SyncLink, connect, dispose, install, on_close, schedule_reconnect}

-- The page disposes the link, installs it again, and the new socket closes.
abbrev pub reinstalled : SyncLink → SyncLink
reinstalled l = on_close l.next_socket (install (ok tt) (dispose l))

-- A link that is disposed while it waits for its next attempt, and installed again, has after the
-- next close neither a socket nor a timer that runs, though nobody has closed it.
pub reinstalled-waits_for_nothing :
    (l : SyncLink)
    → l.timer_set ≡ true
    → l.live ≡ []
    → ((reinstalled l).socket ≡ none)
      × ((reinstalled l).pending ≡ none)
      × ((reinstalled l).live ≡ [])
      × ((reinstalled l).closed_by_caller ≡ false)
unfolding on_close install dispose connect schedule_reconnect
reinstalled-waits_for_nothing l t e =
    let self : (l.next_socket == l.next_socket) ≡ true =
      (==_iff l.next_socket l.next_socket).1 refl in
    let at : reinstalled l ≡ record l {
      socket = none;
      live = [];
      pending = none;
      closed_by_caller = false;
      next_socket = suc l.next_socket;
    } =
      rw (t, e, self) refl in
    subst
      (λ (m : SyncLink).
        (m.socket ≡ none) × (m.pending ≡ none) × (m.live ≡ []) × (m.closed_by_caller ≡ false))
      (sym at) (refl, refl, refl, refl)
