-- ===== src/Pane.antt =====
-- The chat pane of the desktop shell (apps/web/src/shells/desktop/panes/ChatPane.tsx), in parts: the
-- queue of messages, the cache of the views, the chats of the scope, the composer.
pub mod Queue
pub mod Views
pub mod Scope
pub mod Compose
pub mod Scroll
mod Examples
