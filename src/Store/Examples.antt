-- ===== src/Store/Examples.antt =====
-- The theorems about the client's store at concrete inputs.
use agentgrove.Base.{
  All, Bool-cases, Option, Str, [], ap, arith, codes, false≢true, head?, inl, inr, last_part,
  lookup, none, refl, some, some_inj, subst, sym, ◌===◌, ◌∙◌, ◌∷◌, ◌≡◌, ◌≢◌,
}
use agentgrove.Store.Types.{
  ChatTab, Scope, UnifiedTab, db, editor, fresh_scope, initial_state, terminal,
}
use agentgrove.Store.Keys.{current_scope_key, make_key, scope_of_key}
use agentgrove.Store.Keys.RoundTrip.{HasNoColon, scope_of_key-make_key}
use agentgrove.Store.Tabs.{chat_tab}
use agentgrove.Store.Tabs.Valid.{IsValid}
use agentgrove.Store.Tabs.Chats.{IsClear}
use agentgrove.Store.Layout.{Blob, SavedScope, editor_tab, hydrate_scope}
use agentgrove.Store.Actions.{App, add_tab, close_tab, go_to_chat, selected_chat_id}
use agentgrove.Store.Actions.Focus.{go_to_chat-selects}
use agentgrove.Store.Actions.Invariant.{AllValid, Reach, Reach-AllValid, adds, closes, next, stay}

abbrev shell_tab : UnifiedTab
shell_tab = terminal (codes "t") (codes "/") (codes "Shell")

abbrev chat_c : ChatTab
chat_c = record { id = codes "c"; title = codes "Plan"; draft = none }

abbrev chat_d : ChatTab
chat_d = record { id = codes "d"; title = codes "Fix"; draft = none }

abbrev two_tabs : Scope
two_tabs = record fresh_scope {
  tabs = shell_tab ∷ chat_tab chat_c ∷ [];
  active_tab = some (codes "t");
}

-- The project `p`, at its root, with the two tabs.
abbrev app : App
app = record {
  state = record initial_state {
    selected_project_id = some (codes "p");
    by_scope = (codes "p", two_tabs) ∷ [];
  };
  due = [];
}

no_colon : HasNoColon (codes "p")
no_colon = (λ e. absurd (omega (arith, e)), tt)

no_colon_w : HasNoColon (codes "w")
no_colon_w = (λ e. absurd (omega (arith, e)), tt)

scope_of_key-make_key_example :
    scope_of_key (make_key (codes "p") (some (codes "w"))) ≡ (codes "p", codes "w")
scope_of_key-make_key_example =
    scope_of_key-make_key (codes "p") (some (codes "w")) no_colon no_colon_w

IsClear-tabs : All (IsClear (chat_d ∷ [])) two_tabs.tabs
unfolding ◌===◌
IsClear-tabs = (λ _. refl, (λ e. cc, tt))

p_not_q : ◌≢◌ {A = Str} (codes "p") (codes "q")
p_not_q e = absurd (omega (arith, some_inj (ap head? e)))

t_not_c : ◌≢◌ {A = Str} (codes "t") (codes "c")
t_not_c e = absurd (omega (arith, some_inj (ap head? e)))

two_tabs-IsValid : IsValid two_tabs
unfolding ◌===◌
two_tabs-IsValid = record { distinct = ((t_not_c, tt), (tt, tt)); focused = refl }

none_not_some : {s : Scope} → ◌≢◌ {A = Option Scope} none (some s)
none_not_some e = cc

app-AllValid : AllValid app.state
unfolding lookup
app-AllValid key s e = elim (Bool-cases (codes "p" === key)) [
  | inl k ↦
      let at : lookup key app.state.by_scope ≡ some two_tabs = rw k refl in
      subst IsValid (some_inj (sym at ∙ e)) two_tabs-IsValid
  | inr k ↦
      let at : lookup key app.state.by_scope ≡ none = rw k refl in
      absurd (none_not_some (sym at ∙ e))
]

after_add : Reach app (add_tab (chat_tab chat_d) app).0
after_add = next stay (adds (chat_tab chat_d))

after_close : Reach app (close_tab (codes "t") (add_tab (chat_tab chat_d) app).0).0
after_close = next after_add (closes (codes "t"))

Reach-AllValid_example : AllValid (close_tab (codes "t") (add_tab (chat_tab chat_d) app).0).0.state
Reach-AllValid_example = Reach-AllValid after_close app-AllValid

go_to_chat-selects_example :
    (current_scope_key (go_to_chat (codes "p") none (codes "c") app).state
      ≡ some (make_key (codes "p") none))
    × (selected_chat_id (go_to_chat (codes "p") none (codes "c") app).state ≡ some (codes "c"))
unfolding lookup make_key ◌===◌
go_to_chat-selects_example =
    go_to_chat-selects (codes "p") none (codes "c") app refl refl
      ((λ _. t_not_c), ((λ e. absurd (false≢true (sym e))), tt))

-- A blob of the old layout: a chat and an open file.
abbrev old_blob : Blob
old_blob = record {
  tabs = none;
  active_tab = none;
  active_pane = none;
  active_editor = some (codes "src/a.ts");
  terminals = none;
  active_terminal = none;
  chats = some (chat_c ∷ []);
  active_chat = some (codes "c");
  chats_hydrated = none;
}

abbrev saved_scope : SavedScope
saved_scope = record { project_id = codes "p"; worktree_id = none; blob = old_blob }

-- A strip with a database tab of the time when there were several, which has the focus.
abbrev strip_blob : Blob
strip_blob = record old_blob {
  tabs =
      some (shell_tab ∷ db (codes "db:1") (codes "one") ∷ db (codes "db") (codes "Database") ∷ []);
  active_tab = some (codes "db:1");
  active_pane = some (codes "terminal");
}

-- The strips are those that one expects, and the second focus has gone to the first tab.
loaded_tabs :
    ((hydrate_scope old_blob).tabs
      ≡ chat_tab chat_c ∷ editor (codes "file:src/a.ts") (codes "src/a.ts") (codes "a.ts") ∷ [])
    × ((hydrate_scope old_blob).active_tab ≡ some (codes "c"))
    × ((hydrate_scope strip_blob).tabs ≡ shell_tab ∷ db (codes "db") (codes "Database") ∷ [])
    × ((hydrate_scope strip_blob).active_tab ≡ some (codes "t"))
unfolding hydrate_scope editor_tab last_part ◌===◌
loaded_tabs = (refl, refl, refl, refl)
