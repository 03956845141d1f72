-- ===== src/Pane/Views.antt =====
-- The views that the pane keeps: the cache of the chats seen last, and the loads of the timeline,
-- each as the part before its call of the server and the part after it
-- (apps/web/src/shells/desktop/panes/ChatPane.tsx).
pub mod Recent
pub mod Switches
use agentgrove.Base.{
  Bool, Dict, List, Option, Str, [], false, if◌then◌else◌, length, lookup, ltb, none, remove, some,
  true, truthy, ℕ, ◌++◌, ◌∷◌,
}
use agentgrove.Chat.Types.{ChatStore, ChatView, Prompt, PromptsBackfill, fresh_chat_store}
use agentgrove.Chat.Session.{
  Answer, Session, covers, failed, is_chat, keep_head, ok, reconcile_view,
}

abbrev pub chat_cache_max : ℕ
chat_cache_max = 12

pub record CachedView : Type 0 where
  pub view : ChatView
  pub prompts : List Prompt
  pub at_start : Bool

-- The oldest entries go while there are too many.
abbrev pub evict_views : Dict CachedView → Dict CachedView
evict_views [] = []
evict_views (e ∷ es) =
    let rest = evict_views es in if ltb chat_cache_max (length (e ∷ es)) then rest else e ∷ es

-- A `Map` holds its entries in the order of their insertion, the oldest first.
unfoldable pub cache_chat_view : Str → CachedView → Dict CachedView → Dict CachedView
cache_chat_view id cached cache = evict_views (remove id cache ++ (id, cached) ∷ [])

-- `chatStore` with the error line, and the cache.
pub record PaneViews : Type 0 where
  pub session : Session
  pub cache : Dict CachedView

abbrev pub set_store : ChatStore → PaneViews → PaneViews
set_store store p = record p { session = record p.session { store = store } }

abbrev pub store_of_cached : CachedView → ChatStore
store_of_cached c = record fresh_chat_store {
  view = some c.view;
  prompts = c.prompts;
  at_start = c.at_start;
}

-- The flag says whether the cache had the chat.
unfoldable pub paint_from_cache : Str → PaneViews → PaneViews × Bool
paint_from_cache id p = elim (lookup id p.cache) [
  | none ↦ (p, false)
  | some c ↦ (set_store (store_of_cached c) p, true)
]

abbrev pub cached_of : ChatView → CachedView
cached_of view = record { view = view; prompts = view.prompts; at_start = covers view }

-- The id of the chat to fetch, where one is open.
unfoldable pub load_chat_begin : Bool → Option Str → PaneViews → PaneViews × Option Str
load_chat_begin had_cache none p = (set_store fresh_chat_store p, none)
load_chat_begin had_cache (some id) p =
    if truthy id
    then (if had_cache then p else set_store fresh_chat_store p, some id)
    else (set_store fresh_chat_store p, none)

-- The second argument is the chat that is open when the answer comes.
unfoldable pub load_chat_finish : Str → Option Str → Answer ChatView → PaneViews → PaneViews
load_chat_finish id now (failed message) p = record p {
  session = record p.session { error_message = some message };
}
load_chat_finish id now (ok view) p =
    let cache = cache_chat_view id (cached_of view) p.cache in
    if is_chat id now
    then record (set_store (store_of_cached (cached_of view)) p) { cache = cache }
    else record p { cache = cache }

abbrev pub cached_store : ChatView → ChatStore → CachedView
cached_store view s = record { view = view; prompts = s.prompts; at_start = s.at_start }

unfoldable pub reconcile_chat_finish : Str → Option Str → Answer ChatView → PaneViews → PaneViews
reconcile_chat_finish id now (failed message) p = record p {
  session = record p.session { error_message = some message };
}
reconcile_chat_finish id now (ok view) p =
    if is_chat id now
    then (let s = reconcile_view view p.session.store in
        record (set_store s p) { cache = cache_chat_view id (cached_store view s) p.cache })
    else record p { cache = cache_chat_view id (cached_of view) p.cache }

-- Unlike the session of the other shells, the pane looks whether the chat is still open. The flag of
-- the spinner is reset in any case.
unfoldable pub load_older_page : Str → Option Str → Answer PromptsBackfill → Session → Session
load_older_page id now (failed message) s = record s {
  store = record s.store { loading_older = false };
  error_message = some message;
}
load_older_page id now (ok page) s =
    if is_chat id now
    then record s {
      store = record s.store {
        prompts = keep_head (page.prompts ++ s.store.prompts);
        at_start = page.at_start;
        loading_older = false;
      };
    }
    else record s { store = record s.store { loading_older = false } }
