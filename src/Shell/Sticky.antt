-- ===== src/Shell/Sticky.antt =====
-- A shell that was asked for once stays (apps/web/src/core/lib/shellSelect.ts).
use agentgrove.Base.{All, Bool, List, Option, Str, [], none, refl, some, ◌===◌, ◌∷◌, ◌≡◌}
use agentgrove.Shell.{
  ShellKind, desktop, kind_text, mobile, read_shell_override, resolve_shell, start_shell,
}

-- The shells of one visit after the other that ask for nothing, each with the local storage that
-- the one before has left. Each visit has its own answer of the media query.
abbrev pub later_shells : Option (Option Str) → List Bool → List ShellKind
later_shells store [] = []
later_shells store (matches_mobile ∷ rest) =
    start_shell none store matches_mobile ∷ later_shells (read_shell_override none store).1 rest

later_shells_lem :
    (kind : ShellKind) (later : List Bool)
    → All (λ (k : ShellKind). k ≡ kind) (later_shells (some (some (kind_text kind))) later)
unfolding start_shell read_shell_override resolve_shell ◌===◌
later_shells_lem kind [] = tt
later_shells_lem desktop (m ∷ later) = (refl, later_shells_lem desktop later)
later_shells_lem mobile (m ∷ later) = (refl, later_shells_lem mobile later)

-- With a local storage that nothing else writes, a visit that asks for a shell gets it, and so do
-- all the visits after it that ask for nothing, whatever the viewport is at each of them and
-- whatever was stored before.
pub start_shell-read_shell_override :
    (kind : ShellKind) (before : Option Str) (first : Bool) (later : List Bool)
    → (start_shell (some (kind_text kind)) (some before) first ≡ kind)
      × All
          (λ (k : ShellKind). k ≡ kind)
          (later_shells (read_shell_override (some (kind_text kind)) (some before)).1 later)
unfolding start_shell read_shell_override resolve_shell ◌===◌
start_shell-read_shell_override desktop before first later = (refl, later_shells_lem desktop later)
start_shell-read_shell_override mobile before first later = (refl, later_shells_lem mobile later)
