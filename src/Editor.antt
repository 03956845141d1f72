-- ===== src/Editor.antt =====
-- The buffer of the editor pane: its saves, the debounced timer and the change of the file
-- (apps/web/src/shells/desktop/panes/EditorPane.tsx). The editor view is its text; `disk` is what the
-- server has written, and `is_pdf` tells the files that are not edited.
pub mod Saved
pub mod Lost
mod Examples
use agentgrove.Base.{
  Bool, Dict, Option, Str, [], false, if◌then◌else◌, insert, none, not, some, true, truthy, ◌&&◌,
  ◌===◌,
}
use agentgrove.Chat.Session.{Answer, failed, ok}

pub record EditorBuffer : Type 0 where
  pub doc : Str
  pub buffer_path : Option Str
  pub open_path : Option Str
  pub dirty : Bool
  pub saving : Bool
  pub timer : Bool
  pub load_err : Option Str
  pub disk : Dict Str

-- The listener of the view: an edit of the user sets the timer again.
unfoldable pub edit : Str → EditorBuffer → EditorBuffer
edit text b = record b { doc = text; dirty = true; timer = true }

-- What the server is asked to write.
pub record Write : Type 0 where
  pub path : Str
  pub content : Str

abbrev pub write_of : Option Str → EditorBuffer → EditorBuffer × Option Write
write_of none b = (b, none)
write_of (some p) b =
    if truthy p && b.dirty
    then (record b { saving = true }, some (record { path = p; content = b.doc }))
    else (b, none)

unfoldable pub flush_begin : EditorBuffer → EditorBuffer × Option Write
flush_begin b = write_of b.buffer_path b

-- The server has answered; where it answers well it has written.
unfoldable pub flush_finish : Write → Answer (Unit {0}) → EditorBuffer → EditorBuffer
flush_finish w (ok _) b = record b {
  disk = insert w.path w.content b.disk;
  dirty = false;
  saving = false;
}
flush_finish w (failed message) b = record b { load_err = some message; saving = false }

abbrev pub finish_if : Answer (Unit {0}) → EditorBuffer × Option Write → EditorBuffer
finish_if answer (b, none) = b
finish_if answer (b, some w) = flush_finish w answer b

-- A save with nothing else going on until its answer.
unfoldable pub flush : Answer (Unit {0}) → EditorBuffer → EditorBuffer
unfolding flush_begin
flush answer b = finish_if answer (flush_begin b)

-- The callback of the timer, up to its call of the server.
unfoldable pub on_save_timer : EditorBuffer → EditorBuffer × Option Write
unfolding flush_begin
on_save_timer b = flush_begin (record b { timer = false })

abbrev pub is_path : Str → Option Str → Bool
is_path p none = false
is_path p (some q) = q === p

abbrev pub is_some_path : Option Str → Bool
is_some_path none = false
is_some_path (some p) = truthy p

-- The save before another file is opened.
abbrev pub save_other : Str → Answer (Unit {0}) → EditorBuffer → EditorBuffer
save_other p answer b =
    if b.dirty && (is_some_path b.buffer_path && not (is_path p b.buffer_path))
    then flush answer b
    else b

pub record FileRead : Type 0 where
  pub path : Str
  pub content : Str

abbrev pub show_pdf : Str → EditorBuffer → EditorBuffer
show_pdf p b = record b { open_path = some p; buffer_path = none; doc = []; dirty = false }

unfoldable pub load_finish : Answer FileRead → EditorBuffer → EditorBuffer
load_finish (failed message) b = record b { load_err = some message }
load_finish (ok f) b = record b {
  open_path = some f.path;
  buffer_path = some f.path;
  doc = f.content;
  dirty = false;
}

-- `loadPath` with nothing else going on until its answers.
unfoldable pub load_path :
    (Str → Bool) → Str → Answer (Unit {0}) → Answer FileRead → EditorBuffer → EditorBuffer
unfolding load_finish
load_path is_pdf p saved answer b =
    let ready = record (save_other p saved b) { load_err = none } in
    if is_pdf p then show_pdf p ready else load_finish answer ready

abbrev pub emptied : EditorBuffer → EditorBuffer
emptied b = record b { open_path = none; buffer_path = none; doc = []; dirty = false }

-- The selection is cleared.
unfoldable pub clear_buffer : Answer (Unit {0}) → EditorBuffer → EditorBuffer
unfolding flush
clear_buffer saved b = emptied (if b.dirty && is_some_path b.buffer_path then flush saved b else b)
