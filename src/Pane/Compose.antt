-- ===== src/Pane/Compose.antt =====
-- The composer of the chat pane: sending with attachments, and the menu of the slash commands
-- (apps/web/src/shells/desktop/panes/ChatPane.tsx).
pub mod Slash
use agentgrove.Base.{
  Bool, List, Option, Str, [], codes, false, if◌then◌else◌, map, none, not, some, trim, true,
  truthy, ℕ, ◌&&◌, ◌++◌, ◌||◌, ◌∷◌,
}
use agentgrove.Store.Actions.{App, set_chat_draft}

pub record Upload : Type 0 where
  pub id : Str
  pub filename : Str
  pub content_type : Str
  pub size : ℕ
  pub path : Str

abbrev pub attachment_line : Upload → Str
attachment_line u =
    codes "- "
    ++ (u.path
        ++ (if truthy u.content_type then codes " (" ++ (u.content_type ++ codes ")") else []))

-- `lines.join("\n")`.
abbrev pub join_lines : List Str → Str
join_lines [] = []
join_lines (l ∷ []) = l
join_lines (l ∷ m ∷ ls) = l ++ (10 ∷ join_lines (m ∷ ls))

abbrev pub attachment_marker : Str
attachment_marker = codes "Attached files (absolute paths, read with your Read tool):"

unfoldable pub with_attachments : Str → List Upload → Str
with_attachments body [] = body
with_attachments body (u ∷ us) =
    body
    ++ ((if truthy body then 10 ∷ 10 ∷ [] else [])
        ++ (attachment_marker ++ (10 ∷ join_lines (map attachment_line (u ∷ us)))))

-- The signals `input` and `uploads`, the timer of the draft, and the store that holds the drafts.
pub record Composer : Type 0 where
  pub input : Str
  pub uploads : List Upload
  pub draft_timer : Bool
  pub app : App

-- What goes to the chat: its id and the body, with what a failure puts back.
pub record Outgoing : Type 0 where
  pub chat_id : Str
  pub body : Str
  pub uploads : List Upload

abbrev pub has_uploads : List Upload → Bool
has_uploads [] = false
has_uploads (u ∷ us) = true

abbrev pub cleared : Str → Composer → Composer
cleared id c = record {
  input = [];
  uploads = [];
  draft_timer = false;
  app = set_chat_draft id [] c.app;
}

unfoldable pub send_begin : Option Str → Composer → Composer × Option Outgoing
send_begin none c = (c, none)
send_begin (some id) c =
    if not (truthy id) || (not (truthy (trim c.input)) && not (has_uploads c.uploads))
    then (c, none)
    else (
      cleared id c,
      some (record {
        chat_id = id;
        body = with_attachments (trim c.input) c.uploads;
        uploads = c.uploads;
      }),
    )

-- `onFail`.
unfoldable pub restore : Outgoing → Composer → Composer
restore o c = record c {
  input = o.body;
  uploads = o.uploads;
  app = set_chat_draft o.chat_id o.body c.app;
}
