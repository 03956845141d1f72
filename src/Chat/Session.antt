-- ===== src/Chat/Session.antt =====
-- The chat session of apps/web/src/core/chat/createChatSession.ts. An asynchronous verb is two
-- handlers, what runs up to its `await` and what runs when the answer is there, so that a run of
-- the session is a sequence of handlers in any order. `now` is the active chat (`opts.chatId()`) at
-- the time of the handler; the answers of the server are arguments.
pub mod Reconcile
pub mod Sending
pub mod Batching
pub mod Link
use agentgrove.Base.{
  Bool, List, Option, Str, [], any, codes, drop, false, filter, get_last?, head?, if◌then◌else◌,
  leb, length, ltb, none, not, some, starts_with, tail, take, true, truthy, ◌&&◌, ◌++◌, ◌-◌, ◌===◌,
  ◌||◌, ◌∷◌,
}
use agentgrove.Base.Int.{ltb_ℤ, ℤ}
use agentgrove.Chat.Types.{
  ChatStore, ChatView, Prompt, PromptsBackfill, fresh_chat_store, has_id, max_prompts_in_view,
}
use agentgrove.Chat.Reading.{is_unfinished}
use agentgrove.Chat.Stream.{drop_live}

-- How a call of the server ends; `failed` carries the message of the error.
pub data Answer {ℓ} (A : Type ℓ) : Type ℓ where
  ok : A → Answer A
  failed : (message : Str) → Answer A

pub record Session : Type 0 where
  pub store : ChatStore
  pub error_message : Option Str

abbrev pub fail : Str → Session → Session
fail message s = record s { error_message = some message }

-- The tests `chatId() !== id` after an `await`, and `!id`.
abbrev pub is_chat : Str → Option Str → Bool
is_chat id none = false
is_chat id (some now) = now === id

unfoldable pub is_streaming : ChatStore → Bool
is_streaming s = elim (get_last? s.prompts) [
  | none ↦ false
  | some tail ↦ is_unfinished (get_last? tail.events)
]

-- `s.slice(s.length - max)` and `s.slice(0, max)` where the list is too long.
unfoldable pub keep_tail : List Prompt → List Prompt
keep_tail ps =
    if ltb max_prompts_in_view (length ps) then drop (length ps - max_prompts_in_view) ps else ps

unfoldable pub keep_head : List Prompt → List Prompt
keep_head ps = if ltb max_prompts_in_view (length ps) then take max_prompts_in_view ps else ps

-- `view.prompts.length >= view.prompts_total`.
abbrev pub covers : ChatView → Bool
covers view = leb view.prompts_total (length view.prompts)

unfoldable pub reload_begin : Session → Session
reload_begin s = record s { store = fresh_chat_store }

unfoldable pub reload_finish : Str → Option Str → Answer ChatView → Session → Session
reload_finish id now (failed message) s = fail message s
reload_finish id now (ok view) s =
    if is_chat id now
    then record s {
      store = record fresh_chat_store {
        view = some view;
        prompts = view.prompts;
        at_start = covers view;
      };
    }
    else s

-- A placeholder that the server holds under a real id.
abbrev is_materialised : List Prompt → Prompt → Bool
is_materialised be p = starts_with p.id (codes "pending-") && any (λ q. q.content === p.content) be

unfoldable pub is_local_only : List Prompt → Prompt → Bool
is_local_only be p = not (any (has_id p.id) be) && not (is_materialised be p)

-- `seq >= 0`, `seq < first` and `seq > last`, where a missing bound is infinite.
abbrev pub is_nonneg : ℤ → Bool
is_nonneg n = not (ltb_ℤ n (ℤ.pos 0))

abbrev pub below_first : ℤ → Option Prompt → Bool
below_first n none = true
below_first n (some first) = ltb_ℤ n first.seq

abbrev pub above_last : ℤ → Option Prompt → Bool
above_last n none = true
above_last n (some last) = ltb_ℤ last.seq n

abbrev pub goes_before : List Prompt → Prompt → Bool
goes_before be p = is_nonneg p.seq && below_first p.seq (head? be)

abbrev pub goes_after : List Prompt → Prompt → Bool
goes_after be p = not (is_nonneg p.seq) || above_last p.seq (get_last? be)

-- The local prompts that stay, around those of the server.
unfoldable pub merge_prompts : List Prompt → List Prompt → List Prompt
unfolding is_local_only
merge_prompts be prompts =
    let local_only = filter (is_local_only be) prompts in
    filter (goes_before be) local_only ++ (be ++ filter (goes_after be) local_only)

abbrev pub is_finished : Prompt → Bool
is_finished p = not (is_unfinished (get_last? p.events))

-- The live buffers of the finished prompts go.
unfoldable pub drop_finished : List Prompt → ChatStore → ChatStore
drop_finished [] s = s
drop_finished (p ∷ ps) s = drop_finished ps (if is_finished p then drop_live p.id s else s)

unfoldable pub reconcile_view : ChatView → ChatStore → ChatStore
unfolding merge_prompts keep_tail drop_finished
reconcile_view view s = drop_finished view.prompts (record s {
  view = some view;
  at_start = covers view;
  prompts = keep_tail (merge_prompts view.prompts s.prompts);
})

unfoldable pub reconcile_finish : Str → Option Str → Answer ChatView → Session → Session
unfolding reconcile_view
reconcile_finish id now (failed message) s = fail message s
reconcile_finish id now (ok view) s =
    if is_chat id now then record s { store = reconcile_view view s.store } else s

-- `none`: nothing is asked of the server; else the chat and the `seq` to page back from.
unfoldable pub load_older_begin : Option Str → Session → Session × Option (Str × ℤ)
load_older_begin none s = (s, none)
load_older_begin (some id) s = elim (head? s.store.prompts) [
  | none ↦ (s, none)
  | some oldest ↦
      if not (truthy id) || s.store.at_start || s.store.loading_older
      then (s, none)
      else (record s { store = record s.store { loading_older = true } }, some (id, oldest.seq))
]

unfoldable pub load_older_finish : Answer PromptsBackfill → Session → Session
unfolding keep_head
load_older_finish (failed message) s =
    fail message (record s { store = record s.store { loading_older = false } })
load_older_finish (ok page) s = record s {
  store = record s.store {
    prompts = keep_head (page.prompts ++ s.store.prompts);
    at_start = page.at_start;
    loading_older = false;
  };
}
