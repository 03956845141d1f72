-- ===== src/Export/Transcript.antt =====
-- What the transcript of a turn shows (apps/web/src/core/lib/exportChat.ts).
use agentgrove.Base.{
  All, Bool, List, Str, [], ap, append-nil, append_assoc, false, false≢true, if◌then◌else◌, refl,
  sym, trim, true, truthy, ◌++◌, ◌∙◌, ◌∷◌, ◌≡◌,
}
use agentgrove.Chat.Types.{
  AgentEvent, done, error, retry, session_start, thinking, token, tool_call, tool_result, truncated,
}
use agentgrove.Chat.Reading.{token_text}
use agentgrove.Export.{flush_text, join_with, render_events, render_from}

-- Tool activity and errors have lines of their own.
abbrev pub has_line : AgentEvent → Bool
has_line (tool_call name args id) = true
has_line (tool_result name result id) = true
has_line (error message) = true
has_line _ = false

abbrev pub IsText : AgentEvent → Type 0
IsText ev = has_line ev ≡ false

render_from-text :
    (out : List Str) (buffer : Str) (evs : List AgentEvent)
    → All IsText evs
    → render_from out buffer evs ≡ flush_text out (buffer ++ token_text evs)
unfolding render_from token_text
render_from-text out buffer [] h = rw append-nil refl
render_from-text out buffer (token text ∷ evs) h =
    render_from-text out (buffer ++ text) evs h.1
    ∙ ap (flush_text out) (append_assoc buffer text (token_text evs))
render_from-text out buffer (session_start i ∷ evs) h = render_from-text out buffer evs h.1
render_from-text out buffer (thinking t ∷ evs) h = render_from-text out buffer evs h.1
render_from-text out buffer (tool_call n a i ∷ evs) h = absurd (false≢true (sym h.0))
render_from-text out buffer (tool_result n r i ∷ evs) h = absurd (false≢true (sym h.0))
render_from-text out buffer (done r c ∷ evs) h = render_from-text out buffer evs h.1
render_from-text out buffer (error m ∷ evs) h = absurd (false≢true (sym h.0))
render_from-text out buffer (retry m ∷ evs) h = render_from-text out buffer evs h.1
render_from-text out buffer (truncated d ∷ evs) h = render_from-text out buffer evs h.1

join_one : (t : Str) → join_with (10 ∷ 10 ∷ []) (if truthy t then t ∷ [] else []) ≡ t
join_one [] = refl
join_one (c ∷ t) = refl

-- The reply of a turn without tool activity and errors is, in the transcript, the reply that the
-- timeline shows for it, trimmed.
pub render_events-token_text :
    (evs : List AgentEvent) → All IsText evs → render_events evs ≡ trim (token_text evs)
unfolding render_events
render_events-token_text evs h =
    ap (join_with (10 ∷ 10 ∷ [])) (render_from-text [] [] evs h) ∙ join_one (trim (token_text evs))
