-- ===== src/Pane/Views/Recent.antt =====
-- The cache of the views keeps the chats seen last
-- (apps/web/src/shells/desktop/panes/ChatPane.tsx).
use agentgrove.Base.{
  ===_iff, All, Bool-cases, Dict, List, Str, [], ap, append_assoc, arith, false, if_true, inl, inr,
  length, length-append, lookup, lookup-remove, ltb, ltb→lt, lt→ltb, none, none_not_some, refl,
  remove, some, subst, suc, sym, ℕ, ◌++◌, ◌+◌, ◌===◌, ◌∙◌, ◌∷◌, ◌≡◌, ◌≤◌,
}
use agentgrove.Pane.Views.{CachedView, cache_chat_view, evict_views}

length-evict_views : (cache : Dict CachedView) → length (evict_views cache) ≤ 12
length-evict_views [] = omega arith
length-evict_views (e ∷ es) = elim (Bool-cases (ltb 12 (length (e ∷ es)))) [
  | inl t ↦ rw t (length-evict_views es)
  | inr t ↦ rw t (ground (arith, lt→ltb 12 (length (e ∷ es))))
]

-- The key is in the cache with the view, at most n entries follow it, and none with the key stands
-- before it.
pub record IsAt (n : ℕ) (k : Str) (v : CachedView) (cache : Dict CachedView) : Type 0 where
  pre : Dict CachedView
  post : Dict CachedView
  shape : cache ≡ pre ++ (k, v) ∷ post
  fresh : lookup k pre ≡ none
  recent : length post ≤ n

lookup-append_none :
    (k : Str) (v : CachedView) (pre post : Dict CachedView)
    → lookup k pre ≡ none
    → lookup k (pre ++ (k, v) ∷ post) ≡ some v
unfolding lookup
lookup-append_none k v [] post h = rw (lookup, (===_iff k k).1 refl) refl
lookup-append_none k v ((j, w) ∷ pre) post h = elim (Bool-cases (j === k)) [
  | inl e ↦ absurd (none_not_some {a = w} (sym h ∙ rw (lookup, e) refl))
  | inr e ↦ rw (lookup, e) (lookup-append_none k v pre post (sym (rw (lookup, e) refl) ∙ h))
]

lookup-IsAt :
    (n : ℕ) (k : Str) (v : CachedView) (cache : Dict CachedView)
    → IsAt n k v cache
    → lookup k cache ≡ some v
lookup-IsAt n k v cache a = ap (lookup k) a.shape ∙ lookup-append_none k v a.pre a.post a.fresh

-- An eviction spares the entries that at most 11 follow.
IsAt-evict_views :
    (n : ℕ) (k : Str) (v : CachedView) (pre post : Dict CachedView)
    → n ≤ 11
    → lookup k pre ≡ none
    → length post ≤ n
    → IsAt n k v (evict_views (pre ++ (k, v) ∷ post))
unfolding lookup
IsAt-evict_views n k v [] post le f r =
    let small : ltb 12 (suc (length post)) ≡ false =
      ground (arith, ltb→lt 12 (suc (length post))) in
    record { pre = []; post = post; shape = rw small refl; fresh = refl; recent = r }
IsAt-evict_views n k v ((j, w) ∷ pre) post le f r =
    elim (Bool-cases (ltb 12 (length ((j, w) ∷ pre ++ (k, v) ∷ post)))) [
      | inr t ↦ record { pre = (j, w) ∷ pre; post = post; shape = rw t refl; fresh = f; recent = r }
      | inl t ↦ elim (Bool-cases (j === k)) [
        | inl e ↦ absurd (none_not_some {a = w} (sym f ∙ rw (lookup, e) refl))
        | inr e ↦
            let rest = IsAt-evict_views n k v pre post le (sym (rw (lookup, e) refl) ∙ f) r in
            record {
              pre = rest.pre;
              post = rest.post;
              shape = if_true _ _ _ t ∙ rest.shape;
              fresh = rest.fresh;
              recent = rest.recent;
            }
      ]
    ]

remove-append :
    (j : Str) (xs ys : Dict CachedView) → remove j (xs ++ ys) ≡ remove j xs ++ remove j ys
unfolding remove
remove-append j [] ys = refl
remove-append j ((k, v) ∷ xs) ys = elim (Bool-cases (k === j)) [
  | inl e ↦ rw (remove, e) (remove-append j xs ys)
  | inr e ↦ rw (remove, e) (ap (λ t. (k, v) ∷ t) (remove-append j xs ys))
]

length-remove : (j : Str) (xs : Dict CachedView) → length (remove j xs) ≤ length xs
unfolding remove
length-remove j [] = omega arith
length-remove j ((k, v) ∷ xs) = elim (Bool-cases (k === j)) [
  | inl e ↦ rw (remove, e) (omega (arith, length-remove j xs))
  | inr e ↦ rw (remove, e) (omega (arith, length-remove j xs))
]

-- Another chat is cached, and no more entries follow than before and one.
IsAt-cache_chat_view :
    (n : ℕ) (k j : Str) (v w : CachedView) (cache : Dict CachedView)
    → (j === k) ≡ false
    → suc n ≤ 11
    → IsAt n k v cache
    → IsAt (suc n) k v (cache_chat_view j w cache)
unfolding cache_chat_view remove
IsAt-cache_chat_view n k j v w cache ne le a =
    let differs : (k === j) ≡ false = ground (arith, ===_iff j k, ===_iff k j) in
    let kept : remove j ((k, v) ∷ a.post) ≡ (k, v) ∷ remove j a.post = rw (remove, differs) refl in
    let at : remove j cache ++ (j, w) ∷ []
        ≡ remove j a.pre ++ (k, v) ∷ (remove j a.post ++ (j, w) ∷ []) =
      ap (λ m. remove j m ++ (j, w) ∷ []) a.shape
      ∙ ap (λ m. m ++ (j, w) ∷ [])
          (remove-append j a.pre ((k, v) ∷ a.post) ∙ ap (λ m. remove j a.pre ++ m) kept)
      ∙ append_assoc (remove j a.pre) ((k, v) ∷ remove j a.post) ((j, w) ∷ []) in
    subst (λ m. IsAt (suc n) k v (evict_views m)) (sym at)
      (IsAt-evict_views (suc n) k v (remove j a.pre) (remove j a.post ++ (j, w) ∷ []) le
        (lookup-remove j k a.pre ∙ rw ne a.fresh)
        (omega
          (arith, length-remove j a.post, a.recent, length-append (remove j a.post) ((j, w) ∷ []))))

IsAt-new :
    (k : Str) (v : CachedView) (cache : Dict CachedView) → IsAt 0 k v (cache_chat_view k v cache)
unfolding cache_chat_view
IsAt-new k v cache =
    IsAt-evict_views 0 k v (remove k cache) [] (omega arith)
      (lookup-remove k k cache ∙ rw ((===_iff k k).1 refl) refl) (omega arith)

-- `cacheChatView` of one chat after the other.
abbrev pub cache_all : List (Str × CachedView) → Dict CachedView → Dict CachedView
cache_all [] cache = cache
cache_all ((j, w) ∷ es) cache = cache_all es (cache_chat_view j w cache)

abbrev pub IsOther : Str → Str × CachedView → Type 0
IsOther k (j, w) = (j === k) ≡ false

IsAt-cache_all :
    (n : ℕ) (k : Str) (v : CachedView) (es : List (Str × CachedView)) (cache : Dict CachedView)
    → n + length es ≤ 11
    → All (IsOther k) es
    → IsAt n k v cache
    → IsAt (n + length es) k v (cache_all es cache)
IsAt-cache_all n k v [] cache le o a = subst (λ m. IsAt m k v cache) (omega arith) a
IsAt-cache_all n k v ((j, w) ∷ es) cache le (h, o) a =
    subst (λ m. IsAt m k v (cache_all es (cache_chat_view j w cache))) (omega arith)
      (IsAt-cache_all (suc n) k v es (cache_chat_view j w cache) (omega (arith, le)) o
        (IsAt-cache_chat_view n k j v w cache h (omega (arith, le)) a))

-- The cache holds 12 views at most. A view that was cached is there with the newest content until
-- 12 other views have been cached: after 11 at most it is found.
pub cache_all-keeps :
    (k : Str) (v : CachedView) (es : List (Str × CachedView)) (cache : Dict CachedView)
    → length es ≤ 11
    → All (IsOther k) es
    → (lookup k (cache_all es (cache_chat_view k v cache)) ≡ some v)
      × (length (cache_chat_view k v cache) ≤ 12)
unfolding cache_chat_view
cache_all-keeps k v es cache le o = (
  lookup-IsAt _ k v _ (
      IsAt-cache_all 0 k v es (cache_chat_view k v cache) (omega (arith, le)) o
        (IsAt-new k v cache)),
  length-evict_views (remove k cache ++ (k, v) ∷ []),
)
