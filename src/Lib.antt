-- ===== src/Lib.antt =====
-- Verification of the web client of AgentGrove under apps/web/src: the timeline of a chat and the
-- session that feeds it, the store of projects, worktrees and tab strips and its refresh by the
-- frames of other instances, the Database store, the export of a chat, the routes, the election of a
-- leader tab, the celestial branch names, the memory monitor, and of the desktop shell the chat pane,
-- the editor pane, the tool rail, the worktree dialog and the drop-down menu.
--
-- How the parts interact. The backend streams the turn of a chat as frames on a WebSocket and
-- answers REST calls. A session (chat/createChatSession.ts) holds the link to one chat: it decodes
-- frames (chat/chatStream.ts), gathers token and thinking deltas and commits them in batches, applies
-- control frames, and replaces or merges the timeline with views that it asks the server for. The
-- store (stores/app.ts) keeps, for each scope (a project root or a worktree), the strip of open tabs
-- and the focus, and saves a scope to the server when it changes. The export (lib/exportChat.ts)
-- pages back through the history of a chat and reads the same events as the timeline. Branch names
-- for new worktrees come from the tables of lib/celestial.ts. A route (lib/routeSync.ts) names a scope
-- of the store, and the tabs of one browser elect a leader (lib/crossTabs.ts). A socket of its own
-- (lib/crossInstanceSync.ts) tells what other instances change, and the store fetches the lists
-- again. The chat pane (shells/desktop/panes/ChatPane.tsx) works on the same timeline as the session,
-- and its refresh of the chats of a scope ends in setScopeChats of the store.
--
-- Which file models which part:
--   Base        lists, tests, strings (UTF-16 code units), association lists, JSON values
--   Chat/Types  Prompt, AgentEvent, ChatView of api/types.ts, ChatStore and WsFrame of chatStream.ts
--   Chat/Frames   parseWsFrame
--   Chat/Stream   appendEventBounded, applyWsFrame
--   Chat/Reading  assistantText, thinkingText, toolEvents, errorMessages, isPromptPending
--   Chat/Session  reload, reconcile, loadOlder, isStreaming
--   Chat/Session/Sending   send, stop; Chat/Session/Batching: enqueue, flush
--   Chat/Session/Link      connect, its listeners and the clean-up, as a step relation
--   Store/Types, Store/Keys   Scope, UnifiedTab, AppState; makeKey, currentScopeKey, the split of keys
--   Store/Tabs       what the actions do to one strip (the functions given to `produce`)
--   Store/Actions    addTab, closeTab, renameTab, setScopeChats, selectWorktree, goToChat and others
--   Store/Layout     hydrateLayoutFromBackend with its migrations, selectFile, openDbEditor
--   Celestial        the tables, suggestBranchName, parseCelestial, extractVisits, countVisits
--   Export           fetchAllPrompts, renderEvents, toMarkdown, slugify
--   CrossTabs        tryClaim, isLeader and onUnload of lib/crossTabs.ts, on the shared entry
--   Routes           buildUrl, and the target of a path with its guard, of lib/routeSync.ts
--   Shell            readShellOverride and resolveShell of lib/shellSelect.ts
--   Store/Refresh    refreshProjects, refreshWorktreesForProject, findTicketWorktree
--   Sync             the socket of lib/crossInstanceSync.ts; Sync/Frames: handleFrame
--   Db               the signals of stores/db.ts; Db/Calls, Db/Switches and Db/Pages: its verbs
--   Memory           lib/memory.ts; Memory/Monitor: the tick of lib/memMonitor.ts
--   ToolRail         pairTools and previewForArgs of features/chat/ToolRail.tsx
--   Menu             ui/Select.tsx
--   Setup            features/projects/WorktreeDialog.tsx
--   Editor           the buffer of shells/desktop/panes/EditorPane.tsx
--   Pane/Queue       the queue of ChatPane.tsx, and the drag of shells/desktop/QueueTimeline.tsx
--   Pane/Views       chatViewCache, loadChat, reconcileChat, loadOlder of ChatPane.tsx
--   Pane/Scope       refreshScopeChats; Pane/Compose: send and the slash menu
--   Pane/Scroll      the scroll rule of VirtualizedTimeline
-- The modules named for a property (Window, Turns, Reconcile, Invariant and so on) hold proofs, and
-- each Examples module holds the theorems at concrete inputs.
--
-- How it is modelled. A function that mutates its argument, or the store, returns the new value. An
-- asynchronous verb is two functions, what runs before its `await` and what runs after it, so that
-- the answer may arrive in any later state; the active chat at that time is an argument, and so are
-- the server's answers, random ids, and the time. A timer is a flag or an optional delay, and its
-- firing a step. `null` and a missing field are both `none`. `JSON.parse` is an argument, with `none`
-- where it throws. The timeline of a freshly loaded chat shares its array with the view in the
-- source; nothing here reads the prompts of a view that is in the store, so the model keeps them
-- apart. Numbers are natural, but `seq`, which is an integer: the placeholder of a send has -1.
--
-- Bounds and fuel. The caps are the source's: 600 prompts, 400 events of a prompt, delays of 1,000
-- to 10,000 ms. The loop of fetchAllPrompts runs on fuel; more fuel than the history has prompts is
-- enough, since each page but the last holds at least one older prompt. The loop of prefetchColumns
-- runs on fuel too; as much as there are tables is enough. The console of the worktree dialog holds
-- 2,000 lines, the cache of the views 12 chats, the ring of the monitor 8 samples.
--
-- What is not modelled: what the views in TSX draw, the REST client and the Rust backend under crates;
-- of the store, bootstrap, themes, settings and the completed-scope signals; of goToChat, the change
-- of the URL and the repeated selection a moment later; the broadcast channel between tabs, the rest
-- of the route sync; of the sync socket, the parse of a message and the set of listeners; of the
-- Database store, the read and write of the settings; toasts. The URL class of the browser, JSON,
-- toLowerCase, the editor view and the list library of the timeline are arguments, or the commands
-- that a handler gives are its result.
pub mod Base
pub mod Chat
pub mod Store
pub mod Celestial
pub mod Export
pub mod CrossTabs
pub mod Shell
pub mod Routes
pub mod Sync
pub mod Db
pub mod ToolRail
pub mod Pane
pub mod Memory
pub mod Menu
pub mod Setup
pub mod Editor
