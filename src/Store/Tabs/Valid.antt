-- ===== src/Store/Tabs/Valid.antt =====
-- The invariant of a tab strip and what keeps it (apps/web/src/core/stores/app.ts).
use agentgrove.Base.{
  ===_iff, ===_refl, All, All-append, Bool, Bool-cases, List, Option, Option-cases, Str, [], any,
  ap, arith, erase_idx, false, find_index, get_elem?, if◌then◌else◌, inl, inr, map, none, refl,
  some, subst, suc, suc_found, sym, tail, true, update_first, zero, ℕ, ◌++◌, ◌===◌, ◌∙◌, ◌∷◌, ◌≡◌,
  ◌≢◌,
}
use agentgrove.Store.Types.{
  Scope, UnifiedTab, chat, db, editor, has_chat_id, has_tab_id, tab_id, terminal,
}
use agentgrove.Store.Tabs.{
  close_at, close_tab_in, id_of, is_id, neighbour, open_tab, rename_tab_in, retitle, set_draft,
  set_draft_in,
}

abbrev pub Differs : UnifiedTab → UnifiedTab → Type 0
Differs t u = tab_id t ≢ tab_id u

abbrev pub DistinctTabs : List UnifiedTab → Type 0
DistinctTabs [] = Unit
DistinctTabs (t ∷ ts) = All (Differs t) ts × DistinctTabs ts

-- Where a tab has the focus, it is in the strip.
abbrev pub IsFocused : List UnifiedTab → Option Str → Type 0
IsFocused tabs none = Unit
IsFocused tabs (some a) = any (has_tab_id a) tabs ≡ true

pub record IsValid (s : Scope) : Type 0 where
  pub distinct : DistinctTabs s.tabs
  pub focused : IsFocused s.tabs s.active_tab

pub All-differ :
    (t : UnifiedTab) (ts : List UnifiedTab)
    → any (has_tab_id (tab_id t)) ts ≡ false
    → All (λ u. Differs u t) ts
All-differ t [] h = tt
All-differ t (u ∷ ts) h =
    (λ e. ground (arith, ===_iff (tab_id u) (tab_id t)), All-differ t ts (ground arith))

pub DistinctTabs-append :
    (ts : List UnifiedTab) (t : UnifiedTab)
    → DistinctTabs ts
    → All (λ u. Differs u t) ts
    → DistinctTabs (ts ++ t ∷ [])
DistinctTabs-append [] t h d = (tt, tt)
DistinctTabs-append (u ∷ ts) t h d =
    (All-append (Differs u) ts (t ∷ []) h.0 (d.0, tt), DistinctTabs-append ts t h.1 d.1)

any_last :
    (t : UnifiedTab) (ts : List UnifiedTab) → any (has_tab_id (tab_id t)) (ts ++ t ∷ []) ≡ true
any_last t [] = rw ===_refl refl
any_last t (u ∷ ts) = ground (arith, any_last t ts)

-- Opening a tab keeps the strip valid.
pub open_tab-IsValid : (tab : UnifiedTab) (s : Scope) → IsValid s → IsValid (open_tab tab s)
unfolding open_tab
open_tab-IsValid tab s v = elim (Bool-cases (any (has_tab_id (tab_id tab)) s.tabs)) [
  | inl e ↦ rw e (record { distinct = v.distinct; focused = e })
  | inr e ↦ rw e (record {
    distinct = DistinctTabs-append s.tabs tab v.distinct (All-differ tab s.tabs e);
    focused = any_last tab s.tabs;
  })
]

All-erase_idx {κ} :
    (P : UnifiedTab → Type κ) (ts : List UnifiedTab) (i : ℕ) → All P ts → All P (erase_idx ts i)
All-erase_idx P [] i h = tt
All-erase_idx P (t ∷ ts) zero h = h.1
All-erase_idx P (t ∷ ts) (suc i) h = (h.0, All-erase_idx P ts i h.1)

DistinctTabs-erase_idx :
    (ts : List UnifiedTab) (i : ℕ) → DistinctTabs ts → DistinctTabs (erase_idx ts i)
DistinctTabs-erase_idx [] i h = tt
DistinctTabs-erase_idx (t ∷ ts) zero h = h.1
DistinctTabs-erase_idx (t ∷ ts) (suc i) h =
    (All-erase_idx (Differs t) ts i h.0, DistinctTabs-erase_idx ts i h.1)

pub any_of_get_elem? :
    (ts : List UnifiedTab) (i : ℕ) {t : UnifiedTab}
    → get_elem? ts i ≡ some t
    → any (has_tab_id (tab_id t)) ts ≡ true
any_of_get_elem? [] i h = cc
any_of_get_elem? (u ∷ ts) zero {t} h = ground (arith, ===_iff (tab_id u) (tab_id t))
any_of_get_elem? (u ∷ ts) (suc i) {t} h = ground (arith, any_of_get_elem? ts i {t = t} h)

pub IsFocused-id_of : (ts : List UnifiedTab) (i : ℕ) → IsFocused ts (id_of (get_elem? ts i))
IsFocused-id_of ts i = elim (Option-cases (get_elem? ts i)) [
  | inl e ↦ rw e tt
  | inr (t, e) ↦ rw e (any_of_get_elem? ts i e)
]

find_index_later :
    (b : Bool) (o : Option ℕ) (i : ℕ)
    → (if b then some 0 else suc_found o) ≡ some (suc i)
    → o ≡ some i
find_index_later true o i h = cc
find_index_later false none i h = cc
find_index_later false (some j) i h = ground arith

-- Closing one tab keeps the others in the strip.
any-erase_idx :
    (a id : Str) (ts : List UnifiedTab) (i : ℕ)
    → find_index (has_tab_id id) ts ≡ some i
    → a ≢ id
    → any (has_tab_id a) ts ≡ true
    → any (has_tab_id a) (erase_idx ts i) ≡ true
any-erase_idx a id [] i f ne h = cc
any-erase_idx a id (t ∷ ts) zero f ne h =
    ground (arith, ===_iff (tab_id t) a, ===_iff (tab_id t) id)
any-erase_idx a id (t ∷ ts) (suc i) f ne h = elim (Bool-cases (has_tab_id a t)) [
  | inl e ↦ rw e refl
  | inr e ↦ rw e (any-erase_idx a id ts i (find_index_later _ _ i f) ne (ground arith))
]

focus_after :
    (active : Option Str) (ts : List UnifiedTab) (i : ℕ) (id : Str)
    → find_index (has_tab_id id) ts ≡ some i
    → IsFocused ts active
    → IsFocused (erase_idx ts i) (if is_id active id then neighbour i (erase_idx ts i) else active)
unfolding neighbour
focus_after none ts i id f h = tt
focus_after (some a) ts i id f h = elim (Bool-cases (a === id)) [
  | inl e ↦ rw e (IsFocused-id_of (erase_idx ts i) _)
  | inr e ↦ rw e (any-erase_idx a id ts i f (λ x. ground (arith, ===_iff a id)) h)
]

close_at-IsValid :
    (o : Option ℕ) (id : Str) (s : Scope)
    → find_index (has_tab_id id) s.tabs ≡ o
    → IsValid s
    → IsValid (close_at o id s).0
unfolding close_at neighbour
close_at-IsValid none id s e v = v
close_at-IsValid (some i) id s e v = record {
  distinct = DistinctTabs-erase_idx s.tabs i v.distinct;
  focused = focus_after s.active_tab s.tabs i id e v.focused;
}

-- Closing a tab keeps the strip valid: the focus stays, or moves to a tab that is there.
pub close_tab_in-IsValid : (id : Str) (s : Scope) → IsValid s → IsValid (close_tab_in id s).0
unfolding close_tab_in
close_tab_in-IsValid id s v = close_at-IsValid _ id s refl v

-- An update of one tab that keeps its id.
pub ids-update_first :
    (f : UnifiedTab → Bool) (g : UnifiedTab → UnifiedTab)
    → ((t : UnifiedTab) → tab_id (g t) ≡ tab_id t)
    → (ts : List UnifiedTab) → map tab_id (update_first f g ts) ≡ map tab_id ts
ids-update_first f g k [] = refl
ids-update_first f g k (t ∷ ts) = elim (Bool-cases (f t)) [
  | inl e ↦ rw e (ap (λ i. i ∷ map tab_id ts) (k t))
  | inr e ↦ rw e (ap (tab_id t ∷◌) (ids-update_first f g k ts))
]

-- Both parts of the invariant depend on the ids alone.
any_of_ids :
    (a : Str) (ts us : List UnifiedTab)
    → map tab_id us ≡ map tab_id ts
    → any (has_tab_id a) us ≡ any (has_tab_id a) ts
any_of_ids a [] [] e = refl
any_of_ids a (t ∷ ts) (u ∷ us) e =
    let h : tab_id u ≡ tab_id t = cc in rw (h, any_of_ids a ts us (ap tail e)) refl
any_of_ids a [] (u ∷ us) e = cc
any_of_ids a (t ∷ ts) [] e = cc

differs_of_ids :
    (i : Str) (ts us : List UnifiedTab)
    → map tab_id us ≡ map tab_id ts
    → All (λ t. i ≢ tab_id t) ts
    → All (λ t. i ≢ tab_id t) us
differs_of_ids i ts [] e h = tt
differs_of_ids i [] (u ∷ us) e h = cc
differs_of_ids i (t ∷ ts) (u ∷ us) e h =
    let k : tab_id u ≡ tab_id t = cc in (rw k h.0, differs_of_ids i ts us (ap tail e) h.1)

pub distinct_of_ids :
    (ts us : List UnifiedTab) → map tab_id us ≡ map tab_id ts → DistinctTabs ts → DistinctTabs us
distinct_of_ids ts [] e h = tt
distinct_of_ids [] (u ∷ us) e h = cc
distinct_of_ids (t ∷ ts) (u ∷ us) e h =
    let k : tab_id u ≡ tab_id t = cc in
    (
      subst (λ i. All (λ v. i ≢ tab_id v) us) (sym k)
          (differs_of_ids (tab_id t) ts us (ap tail e) h.0),
      distinct_of_ids ts us (ap tail e) h.1,
    )

IsFocused-of_ids :
    (active : Option Str) (ts us : List UnifiedTab)
    → map tab_id us ≡ map tab_id ts
    → IsFocused ts active
    → IsFocused us active
IsFocused-of_ids none ts us e h = tt
IsFocused-of_ids (some a) ts us e h = any_of_ids a ts us e ∙ h

pub update_first-IsValid :
    (f : UnifiedTab → Bool) (g : UnifiedTab → UnifiedTab) (s : Scope)
    → ((t : UnifiedTab) → tab_id (g t) ≡ tab_id t)
    → IsValid s
    → IsValid (record s { tabs = update_first f g s.tabs })
update_first-IsValid f g s k v = record {
  distinct = distinct_of_ids s.tabs _ (ids-update_first f g k s.tabs) v.distinct;
  focused = IsFocused-of_ids s.active_tab s.tabs _ (ids-update_first f g k s.tabs) v.focused;
}

pub tab_id-retitle : (title : Str) (t : UnifiedTab) → tab_id (retitle title t) ≡ tab_id t
tab_id-retitle title (chat id old draft) = refl
tab_id-retitle title (terminal id cwd label) = refl
tab_id-retitle title (editor id path label) = refl
tab_id-retitle title (db id label) = refl

tab_id-set_draft : (draft : Str) (t : UnifiedTab) → tab_id (set_draft draft t) ≡ tab_id t
tab_id-set_draft draft (chat id title old) = refl
tab_id-set_draft draft (terminal id cwd label) = refl
tab_id-set_draft draft (editor id path label) = refl
tab_id-set_draft draft (db id label) = refl

-- Renaming a tab and keeping a draft leave the strip valid.
pub rename_tab_in-IsValid :
    (id title : Str) (s : Scope) → IsValid s → IsValid (rename_tab_in id title s)
unfolding rename_tab_in
rename_tab_in-IsValid id title s v =
    update_first-IsValid (has_tab_id id) (retitle title) s (tab_id-retitle title) v

pub set_draft_in-IsValid :
    (id draft : Str) (s : Scope) → IsValid s → IsValid (set_draft_in id draft s)
unfolding set_draft_in
set_draft_in-IsValid id draft s v =
    update_first-IsValid (has_chat_id id) (set_draft draft) s (tab_id-set_draft draft) v
