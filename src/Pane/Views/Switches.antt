-- ===== src/Pane/Views/Switches.antt =====
-- Answers for a chat that is not open any more, and the way back to it
-- (apps/web/src/shells/desktop/panes/ChatPane.tsx).
use agentgrove.Base.{
  ===_iff, All, All-append, Bool-cases, Dict, List, Option, Str, [], ap, arith, if_false, if_true,
  inl, inr, length, length-append, lookup, refl, some, sym, true, ℕ, ◌++◌, ◌∙◌, ◌∷◌, ◌≡◌, ◌≤◌,
}
use agentgrove.Chat.Types.{ChatView, PromptsBackfill, fresh_chat_store}
use agentgrove.Chat.Session.{Answer, covers, is_chat, ok}
use agentgrove.Pane.Views.{
  CachedView, PaneViews, cache_chat_view, cached_of, load_chat_finish, load_older_page,
  paint_from_cache, reconcile_chat_finish, store_of_cached,
}
use agentgrove.Pane.Views.Recent.{IsOther, cache_all, cache_all-keeps}

-- A view that the server sends for a chat, with the chat that is open when it comes: the answer to a
-- load or to a reconcile, or a page of older prompts.
pub data Arrival : Type 0 where
  loaded : Str → Option Str → ChatView → Arrival
  reconciled : Str → Option Str → ChatView → Arrival
  paged : Str → Option Str → Answer PromptsBackfill → Arrival

abbrev pub arrive : Arrival → PaneViews → PaneViews
arrive (loaded id now view) p = load_chat_finish id now (ok view) p
arrive (reconciled id now view) p = reconcile_chat_finish id now (ok view) p
arrive (paged id now answer) p = record p { session = load_older_page id now answer p.session }

abbrev pub arrive_all : List Arrival → PaneViews → PaneViews
arrive_all [] p = p
arrive_all (a ∷ es) p = arrive_all es (arrive a p)

-- It is for a chat other than this one.
abbrev pub IsForOther : Str → Arrival → Type 0
IsForOther id (loaded other now view) = ¬ (other ≡ id)
IsForOther id (reconciled other now view) = ¬ (other ≡ id)
IsForOther id (paged other now answer) = ¬ (other ≡ id)

-- Between the two states up to n views of other chats are cached.
record Caches (id : Str) (n : ℕ) (p q : PaneViews) : Type 0 where
  entries : List (Str × CachedView)
  few : length entries ≤ n
  other : All (IsOther id) entries
  cached : q.cache ≡ cache_all entries p.cache

one_entry :
    (id other : Str) (c : CachedView) (p q : PaneViews)
    → ¬ (other ≡ id)
    → q.cache ≡ cache_chat_view other c p.cache
    → Caches id 1 p q
one_entry id other c p q n e = record {
  entries = (other, c) ∷ [];
  few = omega arith;
  other = (ground (arith, n, ===_iff other id), tt);
  cached = e;
}

arrive-Caches :
    (id : Str) (a : Arrival) (p : PaneViews) → IsForOther id a → Caches id 1 p (arrive a p)
unfolding load_chat_finish reconcile_chat_finish
arrive-Caches id (loaded other now view) p n = elim (Bool-cases (is_chat other now)) [
  | inl e ↦ one_entry id other _ p _ n (ap (λ (q : PaneViews). q.cache) (if_true _ _ _ e))
  | inr e ↦ one_entry id other _ p _ n (ap (λ (q : PaneViews). q.cache) (if_false _ _ _ e))
]
arrive-Caches id (reconciled other now view) p n = elim (Bool-cases (is_chat other now)) [
  | inl e ↦ one_entry id other _ p _ n (ap (λ (q : PaneViews). q.cache) (if_true _ _ _ e))
  | inr e ↦ one_entry id other _ p _ n (ap (λ (q : PaneViews). q.cache) (if_false _ _ _ e))
]
arrive-Caches id (paged other now answer) p n = record {
  entries = [];
  few = omega arith;
  other = tt;
  cached = refl;
}

cache_all-append :
    (xs ys : List (Str × CachedView)) (cache : Dict CachedView)
    → cache_all (xs ++ ys) cache ≡ cache_all ys (cache_all xs cache)
cache_all-append [] ys cache = refl
cache_all-append ((k, c) ∷ xs) ys cache = cache_all-append xs ys (cache_chat_view k c cache)

arrive_all-Caches :
    (id : Str) (es : List Arrival) (p : PaneViews)
    → All (IsForOther id) es
    → Caches id (length es) p (arrive_all es p)
arrive_all-Caches id [] p h = record { entries = []; few = omega arith; other = tt; cached = refl }
arrive_all-Caches id (a ∷ es) p (n, h) =
    let first = arrive-Caches id a p n in
    let later = arrive_all-Caches id es (arrive a p) h in
    record {
      entries = first.entries ++ later.entries;
      few = omega (arith, length-append first.entries later.entries, first.few, later.few);
      other = All-append (IsOther id) first.entries later.entries first.other later.other;
      cached =
          later.cached
          ∙ ap (cache_all later.entries) first.cached
          ∙ sym (cache_all-append first.entries later.entries p.cache);
    }

paint_found :
    (id : Str) (c : CachedView) (p : PaneViews)
    → lookup id p.cache ≡ some c
    → (paint_from_cache id p).0.session.store ≡ store_of_cached c
unfolding paint_from_cache
paint_found id c p e = rw (paint_from_cache, e) refl

loaded_cache :
    (id : Str) (now : Option Str) (view : ChatView) (p : PaneViews)
    → (load_chat_finish id now (ok view) p).cache ≡ cache_chat_view id (cached_of view) p.cache
unfolding load_chat_finish
loaded_cache id now view p = elim (Bool-cases (is_chat id now)) [
  | inl e ↦ ap (λ (q : PaneViews). q.cache) (if_true _ _ _ e)
  | inr e ↦ ap (λ (q : PaneViews). q.cache) (if_false _ _ _ e)
]

-- A view that was loaded for a chat, whether the chat was still open when it came or not, is what
-- going back to the chat paints at once, with the prompts of the view and as complete as it was,
-- after up to 11 further answers for other chats, loads, reconciles and pages of older prompts,
-- whichever chat is open when each of them comes.
pub arrive_all-paints :
    (id : Str) (now : Option Str) (view : ChatView) (es : List Arrival) (p : PaneViews)
    → length es ≤ 11
    → All (IsForOther id) es
    → ((paint_from_cache id (arrive_all es (load_chat_finish id now (ok view) p))).1 ≡ true)
      × ((paint_from_cache id (arrive_all es (load_chat_finish id now (ok view) p))).0.session.store
          ≡ record fresh_chat_store {
            view = some view;
            prompts = view.prompts;
            at_start = covers view;
          })
unfolding paint_from_cache
arrive_all-paints id now view es p le h =
    let q = load_chat_finish id now (ok view) p in
    let c = arrive_all-Caches id es q h in
    let found : lookup id (arrive_all es q).cache ≡ some (cached_of view) =
      ap (lookup id) (c.cached ∙ ap (cache_all c.entries) (loaded_cache id now view p))
      ∙ (cache_all-keeps id (cached_of view) c.entries p.cache (omega (arith, c.few, le))
          c.other).0 in
    (rw (paint_from_cache, found) refl, paint_found id (cached_of view) (arrive_all es q) found)
