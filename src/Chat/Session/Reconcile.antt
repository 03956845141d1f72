-- ===== src/Chat/Session/Reconcile.antt =====
-- What `reconcile` of apps/web/src/core/chat/createChatSession.ts makes of the timeline.
use agentgrove.Base.{
  ===_iff, All, All-append, All-filter, Bool, Bool-cases, List, [], any, ap, ap₂, arith, drop,
  false, filter, get_last?, head?, if◌then◌else◌, inl, inr, length, length-append, length-drop,
  length-take, ltb, refl, some, subst₂, suc, sym, take, true, zero, ℕ, ◌++◌, ◌+◌, ◌-◌, ◌∙◌, ◌∷◌,
  ◌≡◌, ◌≢◌, ◌≤◌,
}
use agentgrove.Base.Int.{ltb_ℤ, negsuc, ℤ}
use agentgrove.Chat.Types.{
  ChatStore, ChatView, Prompt, PromptsBackfill, has_id, max_prompts_in_view,
}
use agentgrove.Chat.Stream.{drop_live}
use agentgrove.Chat.Session.{
  Session, below_first, drop_finished, goes_after, goes_before, is_local_only, is_nonneg, keep_head,
  keep_tail, load_older_finish, merge_prompts, ok, reconcile_view,
}

prompts-drop_finished :
    (ps : List Prompt) (s : ChatStore) → (drop_finished ps s).prompts ≡ s.prompts
unfolding drop_finished drop_live
prompts-drop_finished [] s = refl
prompts-drop_finished (p ∷ ps) s = prompts-drop_finished ps _ ∙ ground arith

pub prompts-reconcile_view :
    (view : ChatView) (s : ChatStore)
    → (reconcile_view view s).prompts ≡ keep_tail (merge_prompts view.prompts s.prompts)
unfolding reconcile_view
prompts-reconcile_view view s = prompts-drop_finished view.prompts _

pub length-keep_tail : (ps : List Prompt) → length (keep_tail ps) ≤ max_prompts_in_view
unfolding keep_tail
length-keep_tail ps = ground (arith, length-drop (length ps - max_prompts_in_view) ps)

length-take_over :
    (n : ℕ) (ps : List Prompt) → length (if ltb n (length ps) then take n ps else ps) ≤ n
length-take_over n ps = ground (arith, length-take n ps)

pub length-keep_head : (ps : List Prompt) → length (keep_head ps) ≤ max_prompts_in_view
unfolding keep_head
length-keep_head ps = length-take_over max_prompts_in_view ps

-- The cap on prompts holds after every reconcile and after every older page.
pub timeline_capped :
    (view : ChatView) (page : PromptsBackfill) (s : Session)
    → (length (reconcile_view view s.store).prompts ≤ max_prompts_in_view)
      × (length (load_older_finish (ok page) s).store.prompts ≤ max_prompts_in_view)
unfolding load_older_finish
timeline_capped view page s = (
  rw (prompts-reconcile_view view s.store) (length-keep_tail _),
  length-keep_head (page.prompts ++ s.store.prompts),
)

-- Prompts with different ids.
abbrev pub Differs : Prompt → Prompt → Type 0
Differs p q = p.id ≢ q.id

abbrev pub DistinctIds : List Prompt → Type 0
DistinctIds [] = Unit
DistinctIds (p ∷ ps) = All (Differs p) ps × DistinctIds ps

abbrev Apart : List Prompt → List Prompt → Type 0
Apart ps qs = All (λ p. All (Differs p) qs) ps

DistinctIds-append :
    (ps qs : List Prompt) → DistinctIds ps → DistinctIds qs → Apart ps qs → DistinctIds (ps ++ qs)
DistinctIds-append [] qs hp hq a = hq
DistinctIds-append (p ∷ ps) qs hp hq a =
    (All-append (Differs p) ps qs hp.0 a.0, DistinctIds-append ps qs hp.1 hq a.1)

DistinctIds-filter :
    (f : Prompt → Bool) (ps : List Prompt) → DistinctIds ps → DistinctIds (filter f ps)
DistinctIds-filter f [] h = tt
DistinctIds-filter f (p ∷ ps) h = elim (Bool-cases (f p)) [
  | inl e ↦ rw e (All-filter (Differs p) f ps h.0, DistinctIds-filter f ps h.1)
  | inr e ↦ rw e (DistinctIds-filter f ps h.1)
]

DistinctIds-drop : (n : ℕ) (ps : List Prompt) → DistinctIds ps → DistinctIds (drop n ps)
DistinctIds-drop zero ps h = h
DistinctIds-drop (suc n) [] h = tt
DistinctIds-drop (suc n) (p ∷ ps) h = DistinctIds-drop n ps h.1

keep_tail-DistinctIds : (ps : List Prompt) → DistinctIds ps → DistinctIds (keep_tail ps)
unfolding keep_tail
keep_tail-DistinctIds ps h = elim (Bool-cases (ltb max_prompts_in_view (length ps))) [
  | inl e ↦ rw e (DistinctIds-drop (length ps - max_prompts_in_view) ps h)
  | inr e ↦ rw e h
]

All-flip : (p : Prompt) (ps : List Prompt) → All (Differs p) ps → All (λ q. q.id ≢ p.id) ps
All-flip p [] h = tt
All-flip p (q ∷ ps) h = (λ e. h.0 (sym e), All-flip p ps h.1)

Apart-cons_right :
    (q : Prompt) (ps qs : List Prompt) → All (λ p. p.id ≢ q.id) ps → Apart ps qs → Apart ps (q ∷ qs)
Apart-cons_right q [] qs h a = tt
Apart-cons_right q (p ∷ ps) qs h a = ((h.0, a.0), Apart-cons_right q ps qs h.1 a.1)

filter_in :
    (f : Prompt → Bool) (p : Prompt) (ps : List Prompt)
    → f p ≡ true
    → filter f (p ∷ ps) ≡ p ∷ filter f ps
filter_in f p ps e = rw e

filter_out :
    (f : Prompt → Bool) (p : Prompt) (ps : List Prompt)
    → f p ≡ false
    → filter f (p ∷ ps) ≡ filter f ps
filter_out f p ps e = rw e

-- Two tests that exclude one another pick apart a list of distinct ids.
Apart-filter :
    (f g : Prompt → Bool) (ps : List Prompt)
    → ((p : Prompt) → f p ≡ true → g p ≡ false)
    → DistinctIds ps
    → Apart (filter f ps) (filter g ps)
Apart-filter f g [] ex h = tt
Apart-filter f g (p ∷ ps) ex h = elim (Bool-cases (f p)) [
  | inl e ↦
      subst₂ Apart (sym (filter_in f p ps e)) (sym (filter_out g p ps (ex p e)))
        (All-filter (Differs p) g ps h.0, Apart-filter f g ps ex h.1)
  | inr e ↦ elim (Bool-cases (g p)) [
    | inl k ↦ subst₂ Apart (sym (filter_out f p ps e)) (sym (filter_in g p ps k)) (
        Apart-cons_right p (filter f ps) (filter g ps)
          (All-filter (λ q. q.id ≢ p.id) f ps (All-flip p ps h.0)) (Apart-filter f g ps ex h.1))
    | inr k ↦
        subst₂ Apart (sym (filter_out f p ps e)) (sym (filter_out g p ps k))
          (Apart-filter f g ps ex h.1)
  ]
]

no_id : (p : Prompt) (be : List Prompt) → any (has_id p.id) be ≡ false → All (Differs p) be
no_id p [] h = tt
no_id p (q ∷ be) h = (λ e. ground (arith, ===_iff q.id p.id), no_id p be (ground arith))

local_only_foreign :
    (be ps : List Prompt) → All (λ p. All (Differs p) be) (filter (is_local_only be) ps)
unfolding is_local_only
local_only_foreign be [] = tt
local_only_foreign be (p ∷ ps) = elim (Bool-cases (is_local_only be p)) [
  | inl e ↦ rw e (no_id p be (ground arith), local_only_foreign be ps)
  | inr e ↦ rw e (local_only_foreign be ps)
]

-- The server's window is in order: its first `seq` is not above its last.
abbrev pub InOrder : List Prompt → Type 0
InOrder be =
    (first : Prompt) × (last : Prompt) × (head? be ≡ some first)
    × (get_last? be ≡ some last)
    × (ltb_ℤ last.seq first.seq ≡ false)

between : (n a b : ℤ) → ltb_ℤ n a ≡ true → ltb_ℤ b a ≡ false → ltb_ℤ b n ≡ false
between (ℤ.pos n) (ℤ.pos a) (ℤ.pos b) h o = ground arith
between (negsuc n) (ℤ.pos a) (ℤ.pos b) h o = ground arith
between (negsuc n) (negsuc a) (ℤ.pos b) h o = ground arith
between (negsuc n) (negsuc a) (negsuc b) h o = ground arith
between _ _ _ h o = cc

before_excludes_after :
    (be : List Prompt)
    → InOrder be
    → (p : Prompt) → goes_before be p ≡ true
    → goes_after be p ≡ false
before_excludes_after be (first, last, f, l, o) p h =
    let n : is_nonneg p.seq ≡ true = ground arith in
    let b : below_first p.seq (head? be) ≡ true = ground arith in
    rw (n, l) (between p.seq first.seq last.seq (rw f at b) o)

Apart-append_right : (ps qs rs : List Prompt) → Apart ps qs → Apart ps rs → Apart ps (qs ++ rs)
Apart-append_right [] qs rs a b = tt
Apart-append_right (p ∷ ps) qs rs a b =
    (All-append (Differs p) qs rs a.0 b.0, Apart-append_right ps qs rs a.1 b.1)

Apart-nil : (qs : List Prompt) → Apart qs []
Apart-nil [] = tt
Apart-nil (q ∷ qs) = (tt, Apart-nil qs)

Apart-sym : (ps qs : List Prompt) → Apart ps qs → Apart qs ps
Apart-sym [] qs a = Apart-nil qs
Apart-sym (p ∷ ps) qs a = Apart-cons_right p qs ps (All-flip p qs a.0) (Apart-sym ps qs a.1)

merge_prompts-DistinctIds :
    (be ps : List Prompt)
    → InOrder be
    → DistinctIds be
    → DistinctIds ps
    → DistinctIds (merge_prompts be ps)
unfolding merge_prompts
merge_prompts-DistinctIds be ps o hb hp =
    let kept = filter (is_local_only be) ps in
    let hk = DistinctIds-filter (is_local_only be) ps hp in
    let foreign = local_only_foreign be ps in
    let before = filter (goes_before be) kept in
    let after = filter (goes_after be) kept in
    DistinctIds-append before (be ++ after) (DistinctIds-filter (goes_before be) kept hk)
      (DistinctIds-append be after hb (DistinctIds-filter (goes_after be) kept hk)
        (Apart-sym after be (All-filter (λ p. All (Differs p) be) (goes_after be) kept foreign)))
      (Apart-append_right before be after
        (All-filter (λ p. All (Differs p) be) (goes_before be) kept foreign)
        (Apart-filter (goes_before be) (goes_after be) kept (before_excludes_after be o) hk))

-- A reconcile against a window in order never shows a prompt twice: distinct ids stay distinct.
pub reconcile_view-DistinctIds :
    (view : ChatView) (s : ChatStore)
    → InOrder view.prompts
    → DistinctIds view.prompts
    → DistinctIds s.prompts
    → DistinctIds (reconcile_view view s).prompts
reconcile_view-DistinctIds view s o hv hs =
    rw (prompts-reconcile_view view s)
      (keep_tail-DistinctIds _ (merge_prompts-DistinctIds view.prompts s.prompts o hv hs))

filter-All : (f : Prompt → Bool) (ps : List Prompt) → All (λ p. f p ≡ true) ps → filter f ps ≡ ps
filter-All f [] h = refl
filter-All f (p ∷ ps) h = filter_in f p ps h.0 ∙ ap (p ∷◌) (filter-All f ps h.1)

keep_tail_short : (ps : List Prompt) → length ps ≤ max_prompts_in_view → keep_tail ps ≡ ps
unfolding keep_tail
keep_tail_short ps h = ground arith

All-real_local :
    (ps : List Prompt)
    → All (λ p. is_nonneg p.seq ≡ true) ps
    → All (λ p. is_local_only [] p ≡ true) ps
unfolding is_local_only
All-real_local [] h = tt
All-real_local (p ∷ ps) h = (ground arith, All-real_local ps h.1)

All-before :
    (ps : List Prompt)
    → All (λ p. is_nonneg p.seq ≡ true) ps
    → All (λ p. goes_before [] p ≡ true) ps
All-before [] h = tt
All-before (p ∷ ps) h = (ground arith, All-before ps h.1)

All-after : (ps : List Prompt) → All (λ p. goes_after [] p ≡ true) ps
All-after [] = tt
All-after (p ∷ ps) = (ground arith, All-after ps)

-- When the server's view has no prompts, a reconcile shows the local prompts twice, if all have a
-- `seq` of at least 0 and the doubled timeline is within the cap.
pub reconcile_view-doubles :
    (view : ChatView) (s : ChatStore)
    → view.prompts ≡ []
    → All (λ p. is_nonneg p.seq ≡ true) s.prompts
    → length s.prompts + length s.prompts ≤ max_prompts_in_view
    → (reconcile_view view s).prompts ≡ s.prompts ++ s.prompts
unfolding merge_prompts
reconcile_view-doubles view s e h short =
    prompts-reconcile_view view s
    ∙ ap (λ be. keep_tail (merge_prompts be s.prompts)) e
    ∙ ap (λ kept. keep_tail (filter (goes_before []) kept ++ filter (goes_after []) kept))
        (filter-All (is_local_only []) s.prompts (All-real_local s.prompts h))
    ∙ ap₂ (λ (before after : List Prompt). keep_tail (before ++ after))
        (filter-All (goes_before []) s.prompts (All-before s.prompts h))
        (filter-All (goes_after []) s.prompts (All-after s.prompts))
    ∙ keep_tail_short _ (omega (arith, length-append s.prompts s.prompts))
