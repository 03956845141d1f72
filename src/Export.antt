-- ===== src/Export.antt =====
-- The Markdown export of a chat: `fetchAllPrompts`, `renderEvents`, `toMarkdown` and `slugify` of
-- apps/web/src/core/lib/exportChat.ts. The calls of the server are arguments; the download that
-- the browser makes of the text is not modelled.
pub mod Complete
pub mod Transcript
pub mod FileName
mod Examples
use agentgrove.Base.{
  Bool, List, Option, Str, [], codes, false, if◌then◌else◌, leb, none, not, some, suc, take, trim,
  true, truthy, zero, ℕ, ◌&&◌, ◌++◌, ◌==◌, ◌||◌, ◌∷◌,
}
use agentgrove.Base.Int.{ℤ}
use agentgrove.Chat.Types.{
  AgentEvent, ChatView, Prompt, PromptsBackfill, error, token, tool_call, tool_result,
}
use agentgrove.Chat.Session.{Answer, covers, failed, ok}
use agentgrove.Celestial.Branches.{to_lower}

-- The server, and a bound on the pages that are asked for: `none` where it is reached.
module _ (list_prompts : Str → ℤ → ℕ → Answer PromptsBackfill) (id : Str) where
  unfoldable pub fetch_older : ℕ → Bool → List Prompt → Option (Answer (List Prompt))
  fetch_older fuel true prompts = some (ok prompts)
  fetch_older fuel false [] = some (ok [])
  fetch_older zero false (oldest ∷ rest) = none
  fetch_older (suc fuel) false (oldest ∷ rest) = elim (list_prompts id oldest.seq 200) [
    | failed message ↦ some (failed message)
    | ok page ↦ elim page.prompts [
      | [] ↦ some (ok (oldest ∷ rest))
      | q ∷ qs ↦ fetch_older fuel page.at_start (page.prompts ++ oldest ∷ rest)
    ]
  ]

  unfoldable pub fetch_all_prompts : ℕ → Answer ChatView → Option (Answer (List Prompt))
  unfolding fetch_older
  fetch_all_prompts fuel (failed message) = some (failed message)
  fetch_all_prompts fuel (ok view) = fetch_older fuel (covers view) view.prompts

-- `flush`: the buffer is emptied by the caller.
abbrev pub flush_text : List Str → Str → List Str
flush_text out buffer = if truthy (trim buffer) then out ++ trim buffer ∷ [] else out

-- The loop of `renderEvents`.
unfoldable pub render_from : List Str → Str → List AgentEvent → List Str
render_from out buffer [] = flush_text out buffer
render_from out buffer (token text ∷ evs) = render_from out (buffer ++ text) evs
render_from out buffer (tool_call name args id ∷ evs) =
    render_from (flush_text out buffer ++ (codes "> **Tool call:** `" ++ (name ++ codes "`")) ∷ [])
      [] evs
render_from out buffer (tool_result name result id ∷ evs) =
    render_from
      (flush_text out buffer ++ (codes "> **Tool result:** `" ++ (name ++ codes "`")) ∷ []) [] evs
render_from out buffer (error message ∷ evs) =
    render_from
      (flush_text out buffer
        ++ (codes "> " ++ (9888 ∷ 65039 ∷ (codes " **Error:** " ++ message))) ∷ [])
      [] evs
render_from out buffer (_ ∷ evs) = render_from out buffer evs

-- `parts.join(sep)`.
abbrev pub join_with : Str → List Str → Str
join_with sep [] = []
join_with sep (p ∷ []) = p
join_with sep (p ∷ q ∷ ps) = p ++ (sep ++ join_with sep (q ∷ ps))

abbrev newline : Str
newline = 10 ∷ []

unfoldable pub render_events : List AgentEvent → Str
unfolding render_from
render_events evs = join_with (10 ∷ 10 ∷ []) (render_from [] [] evs)

abbrev pub or_title : Str → Str
or_title title = if truthy title then title else codes "Chat"

abbrev pub prompt_lines : Prompt → List Str
prompt_lines p =
    let reply = render_events p.events in
    codes "## You"
    ∷ []
    ∷ trim p.content
    ∷ []
    ∷ (if truthy reply then codes "## Assistant" ∷ [] ∷ reply ∷ [] ∷ [] else [])

abbrev pub all_lines : List Prompt → List Str
all_lines [] = []
all_lines (p ∷ ps) = prompt_lines p ++ all_lines ps

unfoldable pub to_markdown : Str → List Prompt → Str
unfolding render_events
to_markdown title prompts =
    join_with newline ((codes "# " ++ or_title title) ∷ [] ∷ all_lines prompts)

-- `[a-z0-9]`.
abbrev pub is_plain : ℕ → Bool
is_plain c = (leb b'a' c && leb c b'z') || (leb b'0' c && leb c b'9')

-- `replace(/[^a-z0-9]+/g, "-")`; the flag says that the character before was replaced.
unfoldable pub dash_runs : Bool → Str → Str
dash_runs after [] = []
dash_runs after (c ∷ s) =
    let rest = dash_runs (not (is_plain c)) s in
    if is_plain c then c ∷ rest else (if after then rest else b'-' ∷ rest)

-- `replace(/^-+|-+$/g, "")`.
unfoldable pub strip_front : Str → Str
strip_front [] = []
strip_front (c ∷ s) = let rest = strip_front s in if c == b'-' then rest else c ∷ s

abbrev pub is_empty : Str → Bool
is_empty s = not (truthy s)

unfoldable pub strip_back : Str → Str
strip_back [] = []
strip_back (c ∷ s) = let rest = strip_back s in if c == b'-' && is_empty rest then [] else c ∷ rest

abbrev pub or_chat : Str → Str
or_chat [] = codes "chat"
or_chat (c ∷ s) = c ∷ s

unfoldable pub slugify : Str → Str
unfolding dash_runs strip_front strip_back
slugify s = or_chat (take 60 (strip_back (strip_front (dash_runs false (to_lower s)))))

abbrev pub file_name : Str → Str
file_name title = slugify title ++ codes ".md"
