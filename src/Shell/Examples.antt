-- ===== src/Shell/Examples.antt =====
-- The theorems about the choice of a shell at concrete inputs.
use agentgrove.Base.{All, [], codes, false, none, some, true, ◌∷◌, ◌≡◌}
use agentgrove.Shell.{ShellKind, mobile, read_shell_override, start_shell}
use agentgrove.Shell.Sticky.{later_shells, start_shell-read_shell_override}

start_shell-read_shell_override_example :
    (start_shell (some (codes "mobile")) (some none) false ≡ mobile)
    × All
        (λ (k : ShellKind). k ≡ mobile)
        (later_shells
          (read_shell_override (some (codes "mobile")) (some none)).1
          (false ∷ true ∷ []))
start_shell-read_shell_override_example =
    start_shell-read_shell_override mobile none false (false ∷ true ∷ [])
