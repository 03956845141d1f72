-- ===== src/Chat/Session/Sending.antt =====
-- `send` and `stop` of apps/web/src/core/chat/createChatSession.ts. The random id of a placeholder
-- and the time are arguments.
pub mod Optimistic
use agentgrove.Base.{
  Bool, List, Option, Str, [], any, codes, drop, false, get_last?, if◌then◌else◌, includes, length,
  ltb, none, not, some, trim, true, truthy, update_first, ◌&&◌, ◌++◌, ◌∷◌,
}
use agentgrove.Base.Int.{negsuc}
use agentgrove.Chat.Types.{
  Prompt, SendMessageResponse, dispatched, error, has_id, max_prompts_in_view, queued,
}
use agentgrove.Chat.Reading.{is_unfinished}
use agentgrove.Chat.Session.{Answer, Session, fail, failed, ok}

-- `pending-` and the random part.
abbrev pub temp_id : Str → Str
temp_id random = codes "pending-" ++ random

abbrev pub placeholder : Str → Str → Str → Prompt
placeholder random body created_at = record {
  id = temp_id random;
  seq = negsuc 0;
  content = body;
  events = [];
  touched_paths = [];
  created_at = created_at;
}

-- `shift()` past the cap.
unfoldable pub push_capped : Prompt → List Prompt → List Prompt
push_capped p ps =
    let longer = ps ++ p ∷ [] in
    if ltb max_prompts_in_view (length longer) then drop 1 longer else longer

-- `none`: nothing is sent.
unfoldable pub send_begin : Option Str → Str → Str → Str → Session → Session × Option Str
unfolding push_capped
send_begin none body random created_at s = (s, none)
send_begin (some id) body random created_at s =
    if truthy id && truthy (trim body)
    then (
      record s {
        store = record s.store {
          prompts = push_capped (placeholder random body created_at) s.store.prompts;
        };
      },
      some id,
    )
    else (s, none)

-- The first prompt with the id goes, if there is one.
unfoldable pub erase_id : Str → List Prompt → List Prompt
erase_id id [] = []
erase_id id (p ∷ ps) = if has_id id p then ps else p ∷ erase_id id ps

unfoldable pub drop_placeholder : Str → Session → Session
unfolding erase_id
drop_placeholder id s = record s {
  store = record s.store { prompts = erase_id id s.store.prompts };
}

-- The real record takes the placeholder's place, or comes last where that is gone.
unfoldable pub put_real : Str → Prompt → List Prompt → List Prompt
put_real id real ps =
    if any (has_id id) ps then update_first (has_id id) (λ _. real) ps else ps ++ real ∷ []

unfoldable pub send_finish : Str → Answer SendMessageResponse → Session → Session × Bool
unfolding drop_placeholder put_real
send_finish id (ok (dispatched real)) s =
    (record s { store = record s.store { prompts = put_real id real s.store.prompts } }, true)
send_finish id (ok (queued item_id)) s = (drop_placeholder id s, true)
send_finish id (failed message) s = (fail message (drop_placeholder id s), false)

abbrev crash_message : Str
crash_message = codes "Turn did not complete — the agent may have crashed or timed out."

-- The end of the turn, made up for a prompt that has none.
unfoldable pub end_turn : Prompt → Prompt
end_turn p =
    if is_unfinished (get_last? p.events)
    then record p { events = p.events ++ error crash_message ∷ [] }
    else p

-- A change of the last element.
unfoldable pub update_last {ℓ} : {A : Type ℓ} → (A → A) → List A → List A
update_last f [] = []
update_last f (x ∷ []) = f x ∷ []
update_last f (x ∷ y ∷ xs) = x ∷ update_last f (y ∷ xs)

-- After a 404 the caller goes on with `reconcile`: the second part says whether.
unfoldable pub stop_finish : Answer (Unit {0}) → Session → Session × Bool
unfolding end_turn update_last
stop_finish (ok answer) s = (s, false)
stop_finish (failed message) s =
    if not (includes message (codes "404"))
    then (record s { error_message = some message }, false)
    else (
      record s { store = record s.store { prompts = update_last end_turn s.store.prompts } },
      true,
    )
