-- ===== src/Setup/Life.antt =====
-- The life of the dialog that creates a worktree
-- (apps/web/src/features/projects/WorktreeDialog.tsx).
use agentgrove.Base.{
  Bool, Bool-cases, List, Option, Str, [], ap, arith, codes, false, false≢true, if_false, if_true,
  inl, inr, length, length-drop, ltb, lt→ltb, none, not, refl, some, subst, sym, trim, true, truthy,
  ◌&&◌, ◌++◌, ◌-◌, ◌||◌, ◌∙◌, ◌∷◌, ◌≡◌, ◌≤◌,
}
use agentgrove.Chat.Session.{Answer, failed, ok}
use agentgrove.Setup.{
  ConsoleLine, Phase, RowStatus, ScriptFrame, SetupDialog, SetupReach, SetupStep, answers, broken,
  closes, creating, exit, finish, form, hears, hello, info_line, is_failed, is_ready,
  is_ready_phase, is_taken, keep_last, line, moves, on_script_frame, other, poll_status, polled,
  pre_script, push_console, ready, reroll, rerolls, running, seed_branch, seeds, stage, stays,
  stderr, stdout, submit_begin, submit_finish, submits, subscribe, ticks, types,
}

abbrev pub is_over : Phase → Bool
is_over form = false
is_over running = false
is_over ready = true
is_over broken = true

-- The console is within its size, no poll runs once the outcome is there, and the dialog closes
-- itself exactly after a success.
pub record IsSetup (d : SetupDialog) : Type 0 where
  pub bounded : length d.console ≤ 2000
  pub over : is_over d.phase ≡ true → d.polling ≡ false
  pub auto : d.closing ≡ is_ready_phase d.phase

length-keep_last : (ls : List ConsoleLine) → length (keep_last ls) ≤ 2000
length-keep_last ls = elim (Bool-cases (ltb 2000 (length ls))) [
  | inl e ↦ rw e (omega (arith, length-drop (length ls - 2000) ls))
  | inr e ↦ rw e (ground (arith, lt→ltb 2000 (length ls)))
]

IsSetup-push_console : (l : ConsoleLine) (d : SetupDialog) → IsSetup d → IsSetup (push_console l d)
unfolding push_console
IsSetup-push_console l d v = record {
  bounded = length-keep_last (d.console ++ l ∷ []);
  over = v.over;
  auto = v.auto;
}

IsSetup-subscribe :
    (opened : Answer (Unit {0})) (d : SetupDialog) → IsSetup d → IsSetup (subscribe opened d)
IsSetup-subscribe (ok _) d v = record { bounded = v.bounded; over = v.over; auto = v.auto }
IsSetup-subscribe (failed message) d v = IsSetup-push_console _ d v

phase-subscribe :
    (opened : Answer (Unit {0})) (d : SetupDialog) → (subscribe opened d).phase ≡ d.phase
unfolding push_console
phase-subscribe (ok _) d = refl
phase-subscribe (failed message) d = refl

IsSetup-submit_finish :
    (created : Answer Str) (opened : Answer (Unit {0})) (d : SetupDialog)
    → IsSetup d
    → IsSetup (submit_finish created opened d)
unfolding submit_finish push_console
IsSetup-submit_finish (failed message) opened d v = record {
  bounded = v.bounded;
  over = v.over;
  auto = v.auto;
}
IsSetup-submit_finish (ok id) opened d v =
    let begun : SetupDialog = record d { created_id = some id; phase = running; closing = false } in
    let told : SetupDialog = push_console (line info_line (codes "worktree id = " ++ id)) begun in
    let w = IsSetup-subscribe opened told (
      IsSetup-push_console _ begun
        (record { bounded = v.bounded; over = λ e. absurd (false≢true e); auto = refl })) in
    record {
      bounded = w.bounded;
      over = λ e. absurd (false≢true (sym (ap is_over (phase-subscribe opened told)) ∙ e));
      auto = w.auto;
    }

IsSetup-polled :
    (o : Option RowStatus) (d : SetupDialog) → d.polling ≡ true → IsSetup d → IsSetup (polled o d)
IsSetup-polled none d p v = elim (Bool-cases d.seen) [
  | inl e ↦
      subst IsSetup (sym (if_true d.seen _ _ e))
        (record { bounded = v.bounded; over = λ _. refl; auto = refl })
  | inr e ↦ subst IsSetup (sym (if_false d.seen _ _ e)) v
]
IsSetup-polled (some creating) d p v = record { bounded = v.bounded; over = v.over; auto = v.auto }
IsSetup-polled (some pre_script) d p v = record {
  bounded = v.bounded;
  over = v.over;
  auto = v.auto;
}
IsSetup-polled (some is_ready) d p v = record { bounded = v.bounded; over = λ _. refl; auto = refl }
IsSetup-polled (some is_failed) d p v = record {
  bounded = v.bounded;
  over = λ _. refl;
  auto = refl;
}

IsSetup-on_script_frame :
    (f : ScriptFrame) (d : SetupDialog) → IsSetup d → IsSetup (on_script_frame f d)
unfolding on_script_frame
IsSetup-on_script_frame hello d v = v
IsSetup-on_script_frame (stage s) d v = IsSetup-push_console _ d v
IsSetup-on_script_frame (stdout s) d v = IsSetup-push_console _ d v
IsSetup-on_script_frame (stderr s) d v = IsSetup-push_console _ d v
IsSetup-on_script_frame (exit code) d v = IsSetup-push_console _ d v
IsSetup-on_script_frame (other raw) d v = IsSetup-push_console _ d v

IsSetup-seed_branch :
    (taken : List Str) (b : Str) (d : SetupDialog) → IsSetup d → IsSetup (seed_branch taken b d)
unfolding seed_branch
IsSetup-seed_branch taken b d v =
    elim (Bool-cases
      (d.user_edited || (truthy (trim d.branch) && not (is_taken taken (trim d.branch))))) [
        | inl e ↦ subst IsSetup (sym (if_true _ _ _ e)) v
        | inr e ↦
            subst IsSetup (sym (if_false _ _ _ e))
              (record { bounded = v.bounded; over = v.over; auto = v.auto })
      ]

IsSetup-submit_begin :
    (taken : List Str) (d : SetupDialog) → IsSetup d → IsSetup (submit_begin taken d).0
unfolding submit_begin
IsSetup-submit_begin taken d v = elim (Bool-cases (not (truthy (trim d.branch)))) [
  | inl e ↦ rw (submit_begin, e) (record { bounded = v.bounded; over = v.over; auto = v.auto })
  | inr e ↦ elim (Bool-cases (is_taken taken (trim d.branch))) [
    | inl k ↦ rw (submit_begin, e, k) (record { bounded = v.bounded; over = v.over; auto = v.auto })
    | inr k ↦ rw (submit_begin, e, k) (record { bounded = v.bounded; over = v.over; auto = v.auto })
  ]
]

IsSetup-step : {d e : SetupDialog} → SetupStep d e → IsSetup d → IsSetup e
unfolding reroll poll_status finish
IsSetup-step {d} (types b) v = record { bounded = v.bounded; over = v.over; auto = v.auto }
IsSetup-step {d} (seeds taken b) v = IsSetup-seed_branch taken b d v
IsSetup-step {d} (rerolls b) v = record { bounded = v.bounded; over = v.over; auto = v.auto }
IsSetup-step {d} (submits taken) v = IsSetup-submit_begin taken d v
IsSetup-step {d} (answers created opened p q) v = IsSetup-submit_finish created opened d v
IsSetup-step {d} (hears f) v = IsSetup-on_script_frame f d v
IsSetup-step {d} (ticks id rows p) v = IsSetup-polled _ d p v
IsSetup-step {d} closes v = record {
  bounded = omega arith;
  over = λ e. absurd (false≢true e);
  auto = refl;
}

-- On every run of the dialog from a valid state, whatever the server and the script say, the console
-- has at most 2,000 lines, no poll runs once the outcome is there, and the timer of the auto-close
-- is set exactly while the phase is a success.
pub SetupReach-IsSetup : {d e : SetupDialog} → SetupReach d e → IsSetup d → IsSetup e
SetupReach-IsSetup stays v = v
SetupReach-IsSetup (moves r s) v = IsSetup-step s (SetupReach-IsSetup r v)
