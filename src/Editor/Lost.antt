-- ===== src/Editor/Lost.antt =====
-- An edit during a save (apps/web/src/shells/desktop/panes/EditorPane.tsx).
use agentgrove.Base.{Str}
use agentgrove.Chat.Session.{ok}
use agentgrove.Editor.{EditorBuffer, edit, flush_begin, flush_finish}

-- The buffer after a save during which the user has typed a text.
abbrev pub typed_meanwhile : Str → Str → EditorBuffer → EditorBuffer
typed_meanwhile p text b =
    flush_finish (record { path = p; content = b.doc }) (ok tt) (edit text (flush_begin b).0)
