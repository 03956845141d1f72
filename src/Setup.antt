-- ===== src/Setup.antt =====
-- The dialog that creates a worktree: its form, the console of the script and the poll of the status
-- (apps/web/src/features/projects/WorktreeDialog.tsx). The suggested branch name, the taken names and
-- the answers of the server are arguments.
pub mod Life
mod Examples
use agentgrove.Base.{
  Bool, List, Option, Str, [], any, codes, decimal, drop, false, find, if◌then◌else◌, length, ltb,
  none, not, some, trim, true, truthy, ℕ, ◌&&◌, ◌++◌, ◌+◌, ◌-◌, ◌===◌, ◌||◌, ◌∷◌, ◌≡◌,
}
use agentgrove.Base.Int.{ℤ}
use agentgrove.Chat.Session.{Answer, failed, ok}

pub data Phase : Type 0 where
  form : Phase
  running : Phase
  ready : Phase
  broken : Phase

pub data LineKind : Type 0 where
  stage_line : LineKind
  out_line : LineKind
  err_line : LineKind
  exit_line : LineKind
  info_line : LineKind

pub record ConsoleLine : Type 0 where
  pub kind : LineKind
  pub text : Str

pub data RowStatus : Type 0 where
  creating : RowStatus
  pre_script : RowStatus
  is_ready : RowStatus
  is_failed : RowStatus

-- What the poll reads of a worktree of the store.
pub record WorktreeRow : Type 0 where
  pub id : Str
  pub status : RowStatus

-- `polling` is the timer of the poll, `seen` the variable of `pollStatus`, and `closing` the timer
-- of the auto-close.
pub record SetupDialog : Type 0 where
  pub phase : Phase
  pub console : List ConsoleLine
  pub created_id : Option Str
  pub socket_open : Bool
  pub polling : Bool
  pub seen : Bool
  pub closing : Bool
  pub branch : Str
  pub user_edited : Bool
  pub base_ref : Str
  pub pre_script_text : Str
  pub busy : Bool
  pub error_message : Option Str

abbrev pub is_ready_phase : Phase → Bool
is_ready_phase form = false
is_ready_phase running = false
is_ready_phase ready = true
is_ready_phase broken = false

-- `setPhase`, and the effect that sets the timer of the auto-close.
abbrev pub set_phase : Phase → SetupDialog → SetupDialog
set_phase p d = record d { phase = p; closing = is_ready_phase p }

abbrev pub console_max : ℕ
console_max = 2000

abbrev pub keep_last : List ConsoleLine → List ConsoleLine
keep_last ls = if ltb console_max (length ls) then drop (length ls - console_max) ls else ls

unfoldable pub push_console : ConsoleLine → SetupDialog → SetupDialog
push_console l d = record d { console = keep_last (d.console ++ l ∷ []) }

abbrev pub is_taken : List Str → Str → Bool
is_taken taken b = any (λ t. t === b) taken

-- The effect that keeps the seeded name free.
unfoldable pub seed_branch : List Str → Str → SetupDialog → SetupDialog
seed_branch taken suggestion d =
    if d.user_edited || (truthy (trim d.branch) && not (is_taken taken (trim d.branch)))
    then d
    else record d { branch = suggestion }

unfoldable pub reroll : Str → SetupDialog → SetupDialog
reroll suggestion d = record d { user_edited = false; branch = suggestion }

pub record NewWorktree : Type 0 where
  pub branch : Str
  pub base_ref : Str
  pub pre_script_text : Option Str

abbrev pub or_main : Str → Str
or_main base = if truthy (trim base) then trim base else codes "main"

abbrev pub some_script : Str → Option Str
some_script script = if truthy (trim script) then some script else none

-- What the server is asked to create.
unfoldable pub submit_begin : List Str → SetupDialog → SetupDialog × Option NewWorktree
submit_begin taken d =
    let b = trim d.branch in
    if not (truthy b)
    then (record d { error_message = some (codes "Branch name is required.") }, none)
    else (if is_taken taken b
        then (
          record d {
            error_message = some (
                codes "A worktree on '" ++ (b ++ codes "' already exists. Pick a different name."));
          },
          none,
        )
        else (
          record d { error_message = none; busy = true },
          some (record {
            branch = b;
            base_ref = or_main d.base_ref;
            pre_script_text = some_script d.pre_script_text;
          }),
        ))

abbrev pub line : LineKind → Str → ConsoleLine
line k t = record { kind = k; text = t }

-- `subscribeToTopic`, which may throw.
abbrev pub subscribe : Answer (Unit {0}) → SetupDialog → SetupDialog
subscribe (ok _) d = record d { socket_open = true }
subscribe (failed message) d =
    push_console (line err_line (codes "failed to open WS: " ++ message)) d

-- The refresh of the worktrees that goes with it is the store's.
unfoldable pub submit_finish : Answer Str → Answer (Unit {0}) → SetupDialog → SetupDialog
unfolding push_console
submit_finish (failed message) opened d = record d { error_message = some message; busy = false }
submit_finish (ok id) opened d =
    let begun = set_phase running (record d { created_id = some id }) in
    let told = push_console (line info_line (codes "worktree id = " ++ id)) begun in
    record (subscribe opened told) { polling = true; seen = false; busy = false }

-- A message of the socket.
pub data ScriptFrame : Type 0 where
  hello : ScriptFrame
  stage : Option Str → ScriptFrame
  stdout : Option Str → ScriptFrame
  stderr : Option Str → ScriptFrame
  exit : Option ℤ → ScriptFrame
  other : (raw : Str) → ScriptFrame

abbrev pub or_undefined : Option Str → Str
or_undefined none = codes "undefined"
or_undefined (some s) = s

abbrev pub or_blank : Option Str → Str
or_blank none = []
or_blank (some s) = s

abbrev pub code_text : Option ℤ → Str
code_text none = codes "?"
code_text (some (ℤ.pos n)) = decimal n
code_text (some (ℤ.negsuc n)) = codes "-" ++ decimal (n + 1)

unfoldable pub on_script_frame : ScriptFrame → SetupDialog → SetupDialog
unfolding push_console
on_script_frame hello d = d
on_script_frame (stage s) d =
    push_console (line stage_line (codes "[" ++ (or_undefined s ++ codes "]"))) d
on_script_frame (stdout s) d = push_console (line out_line (or_blank s)) d
on_script_frame (stderr s) d = push_console (line err_line (or_blank s)) d
on_script_frame (exit code) d =
    push_console (line exit_line (codes "[exit " ++ (code_text code ++ codes "]"))) d
on_script_frame (other raw) d = push_console (line out_line raw) d

abbrev pub stop_poll : Phase → SetupDialog → SetupDialog
stop_poll p d = set_phase p (record d { polling = false })

abbrev pub row_status : Option WorktreeRow → Option RowStatus
row_status none = none
row_status (some w) = some w.status

abbrev pub polled : Option RowStatus → SetupDialog → SetupDialog
polled none d = if d.seen then stop_poll broken d else d
polled (some creating) d = record d { seen = true }
polled (some pre_script) d = record d { seen = true }
polled (some is_ready) d = stop_poll ready (record d { seen = true })
polled (some is_failed) d = stop_poll broken (record d { seen = true })

-- A tick of the poll for the worktree, with the worktrees of the store after the refresh.
unfoldable pub poll_status : Str → List WorktreeRow → SetupDialog → SetupDialog
poll_status id rows d = polled (row_status (find (λ (w : WorktreeRow). w.id === id) rows)) d

-- The id that the parent gets.
unfoldable pub finish : SetupDialog → SetupDialog × Option Str
finish d = (
  record (set_phase form d) { console = []; created_id = none; socket_open = false },
  d.created_id,
)

-- The events of an open dialog. A tick comes while the poll runs, the auto-close while its timer
-- does; a worktree is created while no poll runs.
pub data SetupStep (d : SetupDialog) : SetupDialog → Type 0 where
  types : (b : Str) → SetupStep d (record d { branch = b; user_edited = true })
  seeds : (taken : List Str) (b : Str) → SetupStep d (seed_branch taken b d)
  rerolls : (b : Str) → SetupStep d (reroll b d)
  submits : (taken : List Str) → SetupStep d (submit_begin taken d).0
  answers :
      (created : Answer Str) (opened : Answer (Unit {0}))
      → d.phase ≡ form
      → d.polling ≡ false
      → SetupStep d (submit_finish created opened d)
  hears : (f : ScriptFrame) → SetupStep d (on_script_frame f d)
  ticks :
      (id : Str) (rows : List WorktreeRow) → d.polling ≡ true → SetupStep d (poll_status id rows d)
  closes : SetupStep d (finish d).0

pub data SetupReach (d : SetupDialog) : SetupDialog → Type 0 where
  stays : SetupReach d d
  moves : {e f : SetupDialog} → SetupReach d e → SetupStep e f → SetupReach d f
