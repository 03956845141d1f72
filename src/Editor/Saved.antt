-- ===== src/Editor/Saved.antt =====
-- A buffer that is not dirty is on the disk, while nothing happens during a call of the server
-- (apps/web/src/shells/desktop/panes/EditorPane.tsx).
use agentgrove.Base.{
  Bool, Bool-cases, Option, Str, false, false≢true, if_false, if_true, inl, inr, insert, lookup,
  none, none_not_some, not, refl, some, some_inj, subst, sym, true, truthy, ◌&&◌, ◌∙◌, ◌≡◌,
}
use agentgrove.Store.Actions.Lookup.{lookup-insert_self}
use agentgrove.Chat.Session.{Answer, failed, ok}
use agentgrove.Editor.{
  EditorBuffer, FileRead, Write, clear_buffer, edit, finish_if, flush, flush_begin, flush_finish,
  is_path, is_some_path, load_finish, load_path, save_other, write_of,
}

-- The text of a buffer with a file that is not dirty is what the server has of the file.
abbrev pub IsSaved : EditorBuffer → Type 0
IsSaved b = (p : Str) → b.buffer_path ≡ some p → b.dirty ≡ false → lookup p b.disk ≡ some b.doc

IsSaved-finish_if :
    (answer : Answer (Unit {0})) (o : Option Str) (b : EditorBuffer)
    → b.buffer_path ≡ o
    → IsSaved b
    → IsSaved (finish_if answer (write_of o b))
unfolding flush_finish
IsSaved-finish_if answer none b e v = v
IsSaved-finish_if answer (some p) b e v = elim (Bool-cases (truthy p && b.dirty)) [
  | inr t ↦ subst (λ r. IsSaved (finish_if answer r)) (sym (if_false _ _ _ t)) v
  | inl t ↦ subst (λ r. IsSaved (finish_if answer r)) (sym (if_true _ _ _ t)) (written answer)
]
  where
    w : Write
    w = record { path = p; content = b.doc }

    written : (a : Answer (Unit {0})) → IsSaved (flush_finish w a (record b { saving = true }))
    written (ok _) q f d =
        subst (λ k. lookup k (insert p b.doc b.disk) ≡ some b.doc) (some_inj (sym e ∙ f))
          (lookup-insert_self p b.doc b.disk)
    written (failed message) q f d = v q f d

IsSaved-flush :
    (answer : Answer (Unit {0})) (b : EditorBuffer) → IsSaved b → IsSaved (flush answer b)
unfolding flush flush_begin
IsSaved-flush answer b v = IsSaved-finish_if answer b.buffer_path b refl v

IsSaved-save_other :
    (p : Str) (answer : Answer (Unit {0})) (b : EditorBuffer)
    → IsSaved b
    → IsSaved (save_other p answer b)
IsSaved-save_other p answer b v =
    elim (Bool-cases (b.dirty && (is_some_path b.buffer_path && not (is_path p b.buffer_path)))) [
      | inl e ↦ subst IsSaved (sym (if_true _ _ _ e)) (IsSaved-flush answer b v)
      | inr e ↦ subst IsSaved (sym (if_false _ _ _ e)) v
    ]

-- What happens in the pane, each save and load with its answer before the next: the server reads
-- what it has written.
pub data EditorStep (is_pdf : Str → Bool) (b : EditorBuffer) : EditorBuffer → Type 0 where
  edits : (text : Str) → EditorStep is_pdf b (edit text b)
  fires :
      (answer : Answer (Unit {0}))
      → b.timer ≡ true
      → EditorStep is_pdf b (flush answer (record b { timer = false }))
  saves : (answer : Answer (Unit {0})) → EditorStep is_pdf b (flush answer b)
  opens :
      (p : Str) (saved : Answer (Unit {0})) (f : FileRead)
      → lookup f.path (save_other p saved b).disk ≡ some f.content
      → EditorStep is_pdf b (load_path is_pdf p saved (ok f) b)
  misses :
      (p : Str) (saved : Answer (Unit {0})) (message : Str)
      → EditorStep is_pdf b (load_path is_pdf p saved (failed message) b)
  clears : (saved : Answer (Unit {0})) → EditorStep is_pdf b (clear_buffer saved b)

pub data EditorReach (is_pdf : Str → Bool) (b : EditorBuffer) : EditorBuffer → Type 0 where
  stays : EditorReach is_pdf b b
  moves :
      {c d : EditorBuffer} → EditorReach is_pdf b c → EditorStep is_pdf c d → EditorReach is_pdf b d

IsSaved-load_path :
    (is_pdf : Str → Bool) (p : Str) (saved : Answer (Unit {0})) (f : FileRead) (b : EditorBuffer)
    → lookup f.path (save_other p saved b).disk ≡ some f.content
    → IsSaved (load_path is_pdf p saved (ok f) b)
unfolding load_path load_finish
IsSaved-load_path is_pdf p saved f b e = elim (Bool-cases (is_pdf p)) [
  | inl t ↦ subst IsSaved (sym (if_true _ _ _ t)) (λ q h d. absurd (none_not_some h))
  | inr t ↦
      subst IsSaved (sym (if_false _ _ _ t))
        (λ q h d. subst (λ k. lookup k (save_other p saved b).disk ≡ some f.content) (some_inj h) e)
]

IsSaved-load_failed :
    (is_pdf : Str → Bool) (p : Str) (saved : Answer (Unit {0})) (message : Str) (b : EditorBuffer)
    → IsSaved b
    → IsSaved (load_path is_pdf p saved (failed message) b)
unfolding load_path load_finish
IsSaved-load_failed is_pdf p saved message b v = elim (Bool-cases (is_pdf p)) [
  | inl t ↦ subst IsSaved (sym (if_true _ _ _ t)) (λ q h d. absurd (none_not_some h))
  | inr t ↦ subst IsSaved (sym (if_false _ _ _ t)) (IsSaved-save_other p saved b v)
]

IsSaved-step :
    {is_pdf : Str → Bool} {b c : EditorBuffer} → EditorStep is_pdf b c → IsSaved b → IsSaved c
unfolding edit clear_buffer
IsSaved-step (edits text) v = λ q h d. absurd (false≢true (sym d))
IsSaved-step {b = b} (fires answer t) v = IsSaved-flush answer (record b { timer = false }) v
IsSaved-step {b = b} (saves answer) v = IsSaved-flush answer b v
IsSaved-step {is_pdf} {b = b} (opens p saved f e) v = IsSaved-load_path is_pdf p saved f b e
IsSaved-step {is_pdf} {b = b} (misses p saved message) v =
    IsSaved-load_failed is_pdf p saved message b v
IsSaved-step (clears saved) v = λ q h d. absurd (none_not_some h)

-- On every run of the pane from a saved buffer in which nothing happens during a call of the
-- server, whatever the server answers, the text of a buffer with a file that is not dirty is what
-- the server has of the file.
pub EditorReach-IsSaved :
    {is_pdf : Str → Bool} {b c : EditorBuffer} → EditorReach is_pdf b c → IsSaved b → IsSaved c
EditorReach-IsSaved stays v = v
EditorReach-IsSaved (moves r s) v = IsSaved-step s (EditorReach-IsSaved r v)
