-- ===== src/Editor/Examples.antt =====
-- The theorems about the editor buffer at concrete inputs.
use agentgrove.Base.{
  [], codes, false, lookup, none, refl, some, some_inj, subst, true, ◌===◌, ◌∷◌, ◌≡◌,
}
use agentgrove.Chat.Session.{ok}
use agentgrove.Editor.{EditorBuffer, edit, flush}
use agentgrove.Editor.Saved.{EditorReach-IsSaved, IsSaved, edits, moves, saves, stays}

abbrev buffer : EditorBuffer
buffer = record {
  doc = codes "x";
  buffer_path = some (codes "f");
  open_path = some (codes "f");
  dirty = false;
  saving = false;
  timer = false;
  load_err = none;
  disk = (codes "f", codes "x") ∷ [];
}

buffer-IsSaved : IsSaved buffer
unfolding lookup ◌===◌
buffer-IsSaved p h d = subst (λ k. lookup k buffer.disk ≡ some buffer.doc) (some_inj h) refl

EditorReach-IsSaved_example : IsSaved (flush (ok tt) (edit (codes "y") buffer))
EditorReach-IsSaved_example =
    EditorReach-IsSaved {is_pdf = λ p. false}
      (moves (moves stays (edits (codes "y"))) (saves (ok tt))) buffer-IsSaved

abbrev dirty_buffer : EditorBuffer
dirty_buffer = record buffer { doc = codes "y"; dirty = true; timer = true }
