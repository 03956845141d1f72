-- ===== src/Pane/Scroll.antt =====
-- The scroll rule of the timeline: `VirtualizedTimeline` of
-- apps/web/src/shells/desktop/panes/ChatPane.tsx. The handlers read the clock and the viewport, and
-- what they tell the browser is their result; `to_end` is `scrollToIndex` of the list library with
-- the last row. Lengths are whole pixels.
pub mod Kept
use agentgrove.Base.{
  Bool, List, Option, Str, any, false, head?, if◌then◌else◌, leb, length, ltb, min, none, not, some,
  true, ℕ, ◌&&◌, ◌+◌, ◌-◌, ◌===◌, ◌==◌, ◌||◌,
}
use agentgrove.Base.Int.{ℤ}

abbrev pub bottom_threshold : ℕ
bottom_threshold = 10

abbrev pub settle_ms : ℕ
settle_ms = 600

abbrev pub large_change : ℕ
large_change = 100

abbrev pub scroll_trigger : ℕ
scroll_trigger = 200

pub record Viewport : Type 0 where
  pub scroll_top : ℕ
  pub scroll_height : ℕ
  pub client_height : ℕ

pub record ScrollAnchor : Type 0 where
  pub scroll_top : ℕ
  pub scroll_height : ℕ

pub record ScrollState : Type 0 where
  pub prev_length : ℕ
  pub prev_first_id : Option Str
  pub user_scroll_top : Option ℕ
  pub user_at_bottom : Bool
  pub last_content_height : ℕ
  pub settling_until : Option ℕ
  pub programmatic_until : ℕ
  pub content_changed_until : ℕ
  pub preserve_anchor : Option ScrollAnchor
  pub wheel_active : Bool

abbrev pub initial_scroll : ScrollState
initial_scroll = record {
  prev_length = 0;
  prev_first_id = none;
  user_scroll_top = none;
  user_at_bottom = true;
  last_content_height = 0;
  settling_until = none;
  programmatic_until = 0;
  content_changed_until = 0;
  preserve_anchor = none;
  wheel_active = false;
}

pub data ScrollCommand : Type 0 where
  to_end : ScrollCommand
  set_top : ℕ → ScrollCommand

abbrev pub Scrolled : Type 0
Scrolled = ScrollState × Option ScrollCommand

abbrev pub mark_programmatic : ℕ → ℕ → ScrollState → ScrollState
mark_programmatic now ms s = record s { programmatic_until = now + ms }

abbrev pub scroll_to_bottom : ℕ → ℕ → ScrollState → Scrolled
scroll_to_bottom now len s =
    if len == 0 then (s, none) else (mark_programmatic now 400 s, some to_end)

abbrev pub follow_or_keep : ℕ → ℕ → Option ℕ → ScrollState → Scrolled
follow_or_keep now len none s = scroll_to_bottom now len s
follow_or_keep now len (some top) s =
    if s.user_at_bottom
    then scroll_to_bottom now len s
    else (mark_programmatic now 250 s, some (set_top top))

unfoldable pub enforce_scroll_rule : ℕ → ℕ → Viewport → ScrollState → Scrolled
enforce_scroll_rule now len v s =
    if v.client_height == 0 then (s, none) else follow_or_keep now len s.user_scroll_top s

abbrev pub land_on_bottom : ℕ → ScrollState → ScrollState
land_on_bottom now s = record s {
  user_scroll_top = none;
  user_at_bottom = true;
  settling_until = some (now + settle_ms);
}

abbrev pub same_id : Option Str → Option Str → Bool
same_id none none = true
same_id (some a) (some b) = a === b
same_id _ _ = false

abbrev pub has_some_id : List Str → Option Str → Bool
has_some_id ids none = false
has_some_id ids (some id) = any (λ i. i === id) ids

-- The flag says that the rule is enforced in a microtask.
abbrev pub prompts_rule : ℕ → List Str → ScrollState → ScrollState × Bool
prompts_rule now ids s =
    let len = length ids in
    if s.prev_length == 0 && ltb 0 len
    then (land_on_bottom now s, true)
    else (if not (same_id (head? ids) s.prev_first_id) && (ltb 0 len && ltb 0 s.prev_length)
        then (if has_some_id ids s.prev_first_id then (s, false) else (land_on_bottom now s, true))
        else (if ltb s.prev_length len && same_id (head? ids) s.prev_first_id
            then (record s { content_changed_until = now + 300 }, false)
            else (s, false)))

-- The effect on the prompts, by their ids.
unfoldable pub on_prompts : ℕ → List Str → ScrollState → ScrollState × Bool
on_prompts now ids s =
    let (ruled, enforce) = prompts_rule now ids s in
    (record ruled { prev_length = length ids; prev_first_id = head? ids }, enforce)

abbrev pub is_anchored : ScrollState → Bool
is_anchored s = elim s.preserve_anchor [ none ↦ false | some a ↦ true ]

-- The callback of the `MutationObserver`.
unfoldable pub on_mutation : ℕ → ℕ → Viewport → ScrollState → Scrolled
on_mutation now len v s =
    if v.client_height == 0 || is_anchored s
    then (s, none)
    else follow_or_keep now len s.user_scroll_top (record s { content_changed_until = now + 300 })

-- `|h - lastContentHeight|`.
abbrev pub distance : ℕ → ℕ → ℕ
distance a b = (a - b) + (b - a)

abbrev pub window_ms : ℕ → ℕ
window_ms delta = if ltb large_change delta then 200 else 100

-- The first step of the loop; the others are `on_frame`.
abbrev pub schedule_enforce_loop : ℕ → ℕ → Viewport → ℕ → ScrollState → Scrolled
schedule_enforce_loop now len v ms s =
    enforce_scroll_rule now len v (record s { content_changed_until = now + ms })

unfoldable pub on_frame : ℕ → ℕ → ℕ → Viewport → ScrollState → Scrolled
unfolding enforce_scroll_rule
on_frame now ends len v s = if ltb ends now then (s, none) else enforce_scroll_rule now len v s

abbrev pub pin_to_end : ℕ → Option ℕ → ScrollState → Scrolled
pin_to_end now none s = (mark_programmatic now 250 s, some to_end)
pin_to_end now (some top) s =
    if s.user_at_bottom then (mark_programmatic now 250 s, some to_end) else (s, none)

abbrev pub settled_resize : ℕ → ℕ → Viewport → ℕ → Option ℕ → ScrollState → Scrolled
settled_resize now len v delta none s = scroll_to_bottom now len s
settled_resize now len v delta (some top) s = schedule_enforce_loop now len v (window_ms delta) s

abbrev pub resize_rule : ℕ → ℕ → Viewport → ℕ → Option ℕ → ScrollState → Scrolled
resize_rule now len v delta none s = settled_resize now len v delta s.user_scroll_top s
resize_rule now len v delta (some ends) s =
    if ltb now ends
    then pin_to_end now s.user_scroll_top s
    else settled_resize now len v delta s.user_scroll_top (record s { settling_until = none })

-- The callback of the `ResizeObserver`.
unfoldable pub on_resize : ℕ → ℕ → Viewport → ScrollState → Scrolled
unfolding enforce_scroll_rule
on_resize now len v s =
    if v.client_height == 0 || (is_anchored s || v.scroll_height == s.last_content_height)
    then (s, none)
    else resize_rule now len v (distance v.scroll_height s.last_content_height) s.settling_until
        (record s { last_content_height = v.scroll_height; wheel_active = false })

-- Whether the end of the content is near, and the position of the user.
abbrev pub note_position : Viewport → ℕ → ScrollState → ScrollState
note_position v top s =
    let near = leb (v.scroll_height - top - v.client_height) bottom_threshold in
    record s { user_at_bottom = near; user_scroll_top = if near then none else some top }

abbrev pub moved_by : ℕ → ℤ → ℕ
moved_by top (ℤ.pos n) = top + n
moved_by top (ℤ.negsuc n) = top - (n + 1)

unfoldable pub on_wheel : ℤ → Viewport → ScrollState → ScrollState
on_wheel delta v s =
    note_position v (min (v.scroll_height - v.client_height) (moved_by v.scroll_top delta))
      (record s { wheel_active = true })

abbrev pub is_ignored : ℕ → ScrollState → Bool
is_ignored now s =
    (ltb now s.programmatic_until || ltb now s.content_changed_until) && not s.wheel_active

abbrev pub noted : Bool → Viewport → ScrollState → ScrollState
noted trusted v s = if trusted || s.wheel_active then note_position v v.scroll_top s else s

-- The flags are `isTrusted`, `atStart` and `loadingOlder`; the result says whether older prompts are
-- asked for.
unfoldable pub on_scroll : ℕ → Bool → Bool → Bool → Viewport → ScrollState → ScrollState × Bool
on_scroll now trusted at_start loading v s =
    if is_ignored now s
    then (s, false)
    else (let seen = noted trusted v s in
        if (at_start || (loading || is_anchored seen)) || not (ltb v.scroll_top scroll_trigger)
        then (seen, false)
        else (
          record seen {
            preserve_anchor =
                some (record { scroll_top = v.scroll_top; scroll_height = v.scroll_height });
          },
          true,
        ))

-- The microtask after a change of the number of the prompts. The position is the one that is read
-- after the restoration.
unfoldable pub on_backfill : ℕ → Viewport → ScrollState → Scrolled
on_backfill now v s = elim s.preserve_anchor [
  | none ↦ (s, none)
  | some a ↦
      let delta = v.scroll_height - a.scroll_height in
      let top = if ltb 0 delta then a.scroll_top + delta else v.scroll_top in
      let released = record s { preserve_anchor = none } in
      let near = leb (v.scroll_height - top - v.client_height) bottom_threshold in
      if ltb 0 delta
      then (
        record (mark_programmatic now 250 released) {
          user_scroll_top = some top;
          user_at_bottom = near;
        },
        some (set_top top),
      )
      else (record released { user_scroll_top = some top; user_at_bottom = near }, none)
]
