-- ===== src/Chat/Session/Batching.antt =====
-- The batching of token and thinking deltas: `enqueue` and `flush` of
-- apps/web/src/core/chat/createChatSession.ts. The timer is the flag `armed`: its firing is a call
-- of `flush` by the environment.
pub mod Merge
pub mod Order
use agentgrove.Base.{Bool, Dict, List, Str, [], false, foldl, if◌then◌else◌, not, true, ◌++◌, ◌∷◌}
use agentgrove.Chat.Types.{AgentEvent, ChatStore, WsFrame, thinking, token}
use agentgrove.Chat.Stream.{append_live, apply_ws_frame}

pub record Feed : Type 0 where
  pub store : ChatStore
  pub pending : List WsFrame
  pub armed : Bool

-- The loop over the batch: the deltas of each prompt are joined, in two maps.
unfoldable pub add_token : Dict Str → WsFrame → Dict Str
add_token m f = elim f.event [ token text ↦ append_live f.prompt_id text m | _ ↦ m ]

unfoldable pub add_thinking : Dict Str → WsFrame → Dict Str
add_thinking m f = elim f.event [ thinking text ↦ append_live f.prompt_id text m | _ ↦ m ]

-- The loop that commits such a map to the live buffers.
unfoldable pub merge_live : Dict Str → Dict Str → Dict Str
merge_live [] live = live
merge_live ((pid, text) ∷ batch) live = merge_live batch (append_live pid text live)

unfoldable pub commit : List WsFrame → ChatStore → ChatStore
unfolding add_token add_thinking merge_live
commit [] s = s
commit (f ∷ batch) s = record s {
  live_tokens = merge_live (foldl add_token [] (f ∷ batch)) s.live_tokens;
  live_thinking = merge_live (foldl add_thinking [] (f ∷ batch)) s.live_thinking;
}

unfoldable pub flush : Feed → Feed
unfolding commit
flush feed = record { store = commit feed.pending feed.store; pending = []; armed = false }

abbrev pub is_delta : AgentEvent → Bool
is_delta (token text) = true
is_delta (thinking text) = true
is_delta _ = false

-- A control frame is applied after the buffered deltas.
unfoldable pub enqueue : Feed → WsFrame → Feed
unfolding flush
enqueue feed frame =
    if not (is_delta frame.event)
    then (let flushed = flush feed in record flushed { store = apply_ws_frame flushed.store frame })
    else record feed { pending = feed.pending ++ frame ∷ []; armed = true }
