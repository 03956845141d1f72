-- ===== src/Shell.antt =====
-- Which shell the client mounts (apps/web/src/core/lib/shellSelect.ts). The value of `ui` in the
-- URL is an argument, and so are the entry of the local storage and the media query.
pub mod Sticky
mod Examples
use agentgrove.Base.{Bool, Option, Str, codes, false, if◌then◌else◌, none, some, ◌===◌}

pub data ShellKind : Type 0 where
  desktop mobile : ShellKind

abbrev pub shell_kind : Str → Option ShellKind
shell_kind v =
    if v === codes "desktop"
    then some desktop
    else (if v === codes "mobile" then some mobile else none)

abbrev pub kind_text : ShellKind → Str
kind_text desktop = codes "desktop"
kind_text mobile = codes "mobile"

-- `isShellKind(v) ? v : null`, of a value that may be missing.
abbrev pub kind_of : Option Str → Option ShellKind
kind_of none = none
kind_of (some v) = shell_kind v

abbrev pub is_auto : Option Str → Bool
is_auto none = false
is_auto (some v) = v === codes "auto"

-- `setItem` and `removeItem`, where there is a local storage.
abbrev pub write_entry : Option Str → Option (Option Str) → Option (Option Str)
write_entry entry none = none
write_entry entry (some old) = some entry

-- With the entry of the store afterwards; `store`: `none` without a local storage.
unfoldable pub read_shell_override :
    Option Str → Option (Option Str) → Option ShellKind × Option (Option Str)
read_shell_override from_url store =
    if is_auto from_url then (none, write_entry none store) else elim (kind_of from_url) [
      | some kind ↦ (some kind, write_entry (some (kind_text kind)) store)
      | none ↦ elim store [
        | none ↦ (none, none)
        | some persisted ↦ (kind_of persisted, some persisted)
      ]
    ]

unfoldable pub resolve_shell : Option ShellKind → Bool → ShellKind
resolve_shell (some kind) matches_mobile = kind
resolve_shell none matches_mobile = if matches_mobile then mobile else desktop

-- `createShellSelector`, at its start.
unfoldable pub start_shell : Option Str → Option (Option Str) → Bool → ShellKind
unfolding read_shell_override resolve_shell
start_shell from_url store matches_mobile =
    resolve_shell (read_shell_override from_url store).0 matches_mobile
