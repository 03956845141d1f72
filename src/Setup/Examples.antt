-- ===== src/Setup/Examples.antt =====
-- The theorems about the dialog that creates a worktree at concrete inputs.
use agentgrove.Base.{[], arith, codes, false, false≢true, none, refl, ◌∷◌}
use agentgrove.Chat.Session.{ok}
use agentgrove.Setup.{
  SetupDialog, answers, form, is_ready, moves, poll_status, stays, submit_finish, ticks,
}
use agentgrove.Setup.Life.{IsSetup, SetupReach-IsSetup}

abbrev fresh_dialog : SetupDialog
fresh_dialog = record {
  phase = form;
  console = [];
  created_id = none;
  socket_open = false;
  polling = false;
  seen = false;
  closing = false;
  branch = codes "sirius";
  user_edited = false;
  base_ref = codes "main";
  pre_script_text = [];
  busy = false;
  error_message = none;
}

IsSetup-fresh_dialog : IsSetup fresh_dialog
IsSetup-fresh_dialog = record {
  bounded = omega arith;
  over = λ e. absurd (false≢true e);
  auto = refl;
}

SetupReach-IsSetup_example : IsSetup (
    poll_status
      (codes "w")
      (record { id = codes "w"; status = is_ready } ∷ [])
      (submit_finish (ok (codes "w")) (ok tt) fresh_dialog))
unfolding submit_finish
SetupReach-IsSetup_example =
    SetupReach-IsSetup
      (moves (moves stays (answers (ok (codes "w")) (ok tt) refl refl))
        (ticks (codes "w") (record { id = codes "w"; status = is_ready } ∷ []) refl))
      IsSetup-fresh_dialog
