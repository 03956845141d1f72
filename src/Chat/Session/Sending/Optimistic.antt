-- ===== src/Chat/Session/Sending/Optimistic.antt =====
-- What the optimistic `send` and the synthetic end of `stop` leave in the timeline
-- (apps/web/src/core/chat/createChatSession.ts).
use agentgrove.Base.{
  ===_iff, ===_refl, Bool-cases, List, Option-cases, Str, [], any, ap, append-nil, arith, codes,
  false, get_last?, get_last?-append, includes, inl, inr, length, length-append, none, refl, some,
  trim, true, truthy, update_first, ◌&&◌, ◌++◌, ◌<◌, ◌∙◌, ◌∷◌, ◌≡◌,
}
use agentgrove.Chat.Types.{
  ChatStore, ChatView, Prompt, PromptsBackfill, SendMessageResponse, dispatched, has_id,
  max_prompts_in_view, queued,
}
use agentgrove.Chat.Reading.{is_unfinished}
use agentgrove.Chat.Session.{
  Answer, Session, failed, is_streaming, keep_head, load_older_finish, ok, reload_begin,
  reload_finish,
}
use agentgrove.Chat.Session.Sending.{
  drop_placeholder, end_turn, erase_id, placeholder, push_capped, put_real, send_begin, send_finish,
  stop_finish, temp_id, update_last,
}

-- The random id of the placeholder is no prompt's.
abbrev pub IsFresh : Str → List Prompt → Type 0
IsFresh id ps = any (has_id id) ps ≡ false

push_capped_room :
    (p : Prompt) (ps : List Prompt)
    → length ps < max_prompts_in_view
    → push_capped p ps ≡ ps ++ p ∷ []
unfolding push_capped
push_capped_room p ps h = ground (arith, length-append ps (p ∷ []))

erase_id-append :
    (id : Str) (p : Prompt) (ps qs : List Prompt)
    → IsFresh id ps
    → p.id ≡ id
    → erase_id id (ps ++ p ∷ qs) ≡ ps ++ qs
unfolding erase_id
erase_id-append id p [] qs h e = let t : has_id id p ≡ true = (===_iff p.id id).1 e in rw t
erase_id-append id p (q ∷ ps) qs h e =
    let f : has_id id q ≡ false = ground arith in
    rw f (ap (q ∷◌) (erase_id-append id p ps qs (ground arith) e))

any-append :
    (id : Str) (p : Prompt) (ps qs : List Prompt)
    → p.id ≡ id
    → any (has_id id) (ps ++ p ∷ qs) ≡ true
any-append id p [] qs e = ground (arith, ===_iff p.id id)
any-append id p (q ∷ ps) qs e = ground (arith, any-append id p ps qs e)

update_first-append :
    (id : Str) (p real : Prompt) (ps qs : List Prompt)
    → IsFresh id ps
    → p.id ≡ id
    → update_first (has_id id) (λ _. real) (ps ++ p ∷ qs) ≡ ps ++ real ∷ qs
update_first-append id p real [] qs h e = let t : has_id id p ≡ true = (===_iff p.id id).1 e in rw t
update_first-append id p real (q ∷ ps) qs h e =
    let f : has_id id q ≡ false = ground arith in
    rw f (ap (q ∷◌) (update_first-append id p real ps qs (ground arith) e))

put_real-append :
    (id : Str) (p real : Prompt) (ps qs : List Prompt)
    → IsFresh id ps
    → p.id ≡ id
    → put_real id real (ps ++ p ∷ qs) ≡ ps ++ real ∷ qs
unfolding put_real
put_real-append id p real ps qs h e =
    let found : any (has_id id) (ps ++ p ∷ qs) ≡ true = any-append id p ps qs e in
    rw found (update_first-append id p real ps qs h e)

-- What stands for the message in the timeline after the server's answer.
abbrev pub sent : Answer SendMessageResponse → List Prompt
sent (ok (dispatched real)) = real ∷ []
sent (ok (queued item_id)) = []
sent (failed message) = []

abbrev pub begun : Str → Str → Str → Str → Session → Session
begun id body random time s = (send_begin (some id) body random time s).0

send_begin_room :
    (id body random time : Str) (s : Session)
    → (truthy id && truthy (trim body)) ≡ true
    → length s.store.prompts < max_prompts_in_view
    → (begun id body random time s).store.prompts
      ≡ s.store.prompts ++ placeholder random body time ∷ []
unfolding send_begin
send_begin_room id body random time s t h =
    rw (begun, send_begin, t) (push_capped_room _ s.store.prompts h)

send_finish-prompts :
    (random body time : Str) (answer : Answer SendMessageResponse) (s : Session)
    (older newer : List Prompt)
    → IsFresh (temp_id random) older
    → s.store.prompts ≡ older ++ placeholder random body time ∷ newer
    → (send_finish (temp_id random) answer s).0.store.prompts ≡ older ++ (sent answer ++ newer)
unfolding send_finish drop_placeholder
send_finish-prompts random body time (ok (dispatched real)) s older newer f e =
    rw e (put_real-append (temp_id random) (placeholder random body time) real older newer f refl)
send_finish-prompts random body time (ok (queued item)) s older newer f e =
    rw e (erase_id-append (temp_id random) (placeholder random body time) older newer f refl)
send_finish-prompts random body time (failed message) s older newer f e =
    rw e (erase_id-append (temp_id random) (placeholder random body time) older newer f refl)

-- Below the cap, a message that is not blank shows at the end of the timeline at once. Whatever
-- happens until the answer comes, as long as its placeholder is still in the timeline then, the
-- server's record stands in the very place of the placeholder where the message was dispatched, and
-- nothing where it was queued or refused, and the prompts before and after that place stay. So
-- where nothing happens in between, the timeline is the one before with the record at its end, or
-- the one before.
pub send_round_trip :
    (id body random time : Str) (answer : Answer SendMessageResponse) (s later : Session)
    (older newer : List Prompt)
    → (truthy id && truthy (trim body)) ≡ true
    → length s.store.prompts < max_prompts_in_view
    → IsFresh (temp_id random) s.store.prompts
    → IsFresh (temp_id random) older
    → later.store.prompts ≡ older ++ placeholder random body time ∷ newer
    → ((begun id body random time s).store.prompts
        ≡ s.store.prompts ++ placeholder random body time ∷ [])
      × ((send_finish (temp_id random) answer later).0.store.prompts
          ≡ older ++ (sent answer ++ newer))
      × ((send_finish (temp_id random) answer (begun id body random time s)).0.store.prompts
          ≡ s.store.prompts ++ sent answer)
send_round_trip id body random time answer s later older newer t h f g e =
    let at = send_begin_room id body random time s t h in
    (
      at,
      send_finish-prompts random body time answer later older newer g e,
      send_finish-prompts random body time answer (begun id body random time s) s.store.prompts [] f
            at
          ∙ ap (λ l. s.store.prompts ++ l) (append-nil (sent answer)),
    )

get_last?-update_last {ℓ} :
    {A : Type ℓ} (f : A → A) (xs : List A) {x : A}
    → get_last? xs ≡ some x
    → get_last? (update_last f xs) ≡ some (f x)
unfolding update_last
get_last?-update_last f [] h = cc
get_last?-update_last f (x ∷ []) h = cc
get_last?-update_last f (x ∷ y ∷ []) h = cc
get_last?-update_last f (x ∷ y ∷ z ∷ xs) {x = w} h = get_last?-update_last f (y ∷ z ∷ xs) h

end_turn_ends : (p : Prompt) → is_unfinished (get_last? (end_turn p).events) ≡ false
unfolding end_turn
end_turn_ends p = elim (Bool-cases (is_unfinished (get_last? p.events))) [
  | inl e ↦ rw e (rw get_last?-append refl)
  | inr e ↦ rw e e
]

get_last?-update_last-none {ℓ} :
    {A : Type ℓ} (f : A → A) (xs : List A)
    → get_last? xs ≡ none
    → get_last? (update_last f xs) ≡ none
unfolding update_last
get_last?-update_last-none f [] h = refl
get_last?-update_last-none f (x ∷ []) h = cc
get_last?-update_last-none f (x ∷ y ∷ []) h = cc
get_last?-update_last-none f (x ∷ y ∷ z ∷ xs) h = get_last?-update_last-none f (y ∷ z ∷ xs) h

end_turn_settles :
    (s : ChatStore) → is_streaming (record s { prompts = update_last end_turn s.prompts }) ≡ false
unfolding is_streaming
end_turn_settles s = elim (Option-cases (get_last? s.prompts)) [
  | inl e ↦ rw (is_streaming, get_last?-update_last-none end_turn s.prompts e) refl
  | inr (p, e) ↦ rw (is_streaming, get_last?-update_last end_turn s.prompts e, end_turn_ends p) refl
]

-- Stopping a turn that the server does not know (404) leaves no turn in flight.
pub stop_finish-settles :
    (message : Str) (s : Session)
    → includes message (codes "404") ≡ true
    → is_streaming (stop_finish (failed message) s).0.store ≡ false
unfolding stop_finish is_streaming
stop_finish-settles message s h = rw (stop_finish, h) (end_turn_settles s.store)

-- The user goes to another chat, whose view is loaded.
abbrev switched : Str → ChatView → Session → Session
switched to view s = reload_finish to (some to) (ok view) (reload_begin s)

-- An older page of one chat that arrives after another chat was opened stands before the prompts
-- of that other chat.
pub load_older-crosses :
    (to : Str) (view : ChatView) (page : PromptsBackfill) (s : Session)
    → (load_older_finish (ok page) (switched to view s)).store.prompts
      ≡ keep_head (page.prompts ++ view.prompts)
unfolding load_older_finish reload_finish
load_older-crosses to view page s = rw ===_refl refl
