-- ===== src/Store/Keys/RoundTrip.antt =====
-- The encoding of scopes into keys loses nothing.
use agentgrove.Base.{
  All, Option, Str, [], ap, append-nil, append_assoc, arith, codes, false, none, refl, some, sym,
  true, ◌&&◌, ◌++◌, ◌==◌, ◌∙◌, ◌∷◌, ◌≡◌, ◌≢◌,
}
use agentgrove.Store.Keys.{make_key, scope_of_key, split_from, text_or_empty}

-- Ids are UUIDs, which hold no `:`.
abbrev pub HasNoColon : Str → Type 0
HasNoColon = All (λ c. c ≢ b':')

split_from-plain : (cur s : Str) → HasNoColon s → split_from cur s ≡ (cur ++ s) ∷ []
unfolding split_from
split_from-plain cur [] h = rw append-nil
split_from-plain cur (c ∷ []) h = refl
split_from-plain cur (c ∷ d ∷ s) h =
    let f : (c == b':' && d == b':') ≡ false = ground arith in
    rw (split_from, f)
      (split_from-plain (cur ++ c ∷ []) (d ∷ s) h.1
        ∙ ap (λ t. t ∷ []) (append_assoc cur (c ∷ []) (d ∷ s)))

split_from-separated :
    (cur pid wid : Str)
    → HasNoColon pid
    → HasNoColon wid
    → split_from cur (pid ++ (codes "::" ++ wid)) ≡ (cur ++ pid) ∷ wid ∷ []
unfolding split_from
split_from-separated cur [] wid h k = rw append-nil (ap (cur ∷◌) (split_from-plain [] wid k))
split_from-separated cur (c ∷ []) wid h k =
    let f : (c == b':' && true) ≡ false = ground arith in
    rw (split_from, f) (ap ((cur ++ c ∷ []) ∷◌) (split_from-plain [] wid k))
split_from-separated cur (c ∷ d ∷ pid) wid h k =
    let f : (c == b':' && d == b':') ≡ false = ground arith in
    rw (split_from, f)
      (split_from-separated (cur ++ c ∷ []) (d ∷ pid) wid h.1 k
        ∙ ap (λ t. t ∷ wid ∷ []) (append_assoc cur (c ∷ []) (d ∷ pid)))

-- The layout writer gets back the project and the worktree that the key was made of; the project
-- root has the empty worktree id.
pub scope_of_key-make_key :
    (pid : Str) (wid : Option Str)
    → HasNoColon pid
    → HasNoColon (text_or_empty wid)
    → scope_of_key (make_key pid wid) ≡ (pid, text_or_empty wid)
unfolding scope_of_key make_key
scope_of_key-make_key pid none h k = rw (split_from-plain [] pid h)
scope_of_key-make_key pid (some []) h k = rw (split_from-plain [] pid h)
scope_of_key-make_key pid (some (c ∷ wid)) h k = rw (split_from-separated [] pid (c ∷ wid) h k)

-- Two scopes have the same key only if they are the same project and the same worktree.
pub make_key_inj :
    (pid qid : Str) (wid xid : Option Str)
    → HasNoColon pid
    → HasNoColon qid
    → HasNoColon (text_or_empty wid)
    → HasNoColon (text_or_empty xid)
    → make_key pid wid ≡ make_key qid xid
    → (pid ≡ qid) × (text_or_empty wid ≡ text_or_empty xid)
make_key_inj pid qid wid xid h k hw kx e =
    let same : ◌≡◌ {A = Str × Str} (pid, text_or_empty wid) (qid, text_or_empty xid) =
      sym (scope_of_key-make_key pid wid h hw)
      ∙ ap scope_of_key e
      ∙ scope_of_key-make_key qid xid k kx in
    (ap (λ t. t.0) same, ap (λ t. t.1) same)
