-- ===== src/Routes/Paths.antt =====
-- The path of a scope leads back to it (apps/web/src/core/lib/routeSync.ts).
use agentgrove.Base.{
  All, Str, [], ap, append-nil, append_assoc, arith, codes, false, none, refl, some, true, truthy,
  ◌++◌, ◌===◌, ◌==◌, ◌∙◌, ◌∷◌, ◌≡◌, ◌≢◌,
}
use agentgrove.Routes.{scope_path, segment, segments_from, target_in, target_of, worktree_path}

-- Ids hold no `/`.
abbrev pub HasNoSlash : Str → Type 0
HasNoSlash = All (λ c. c ≢ b'/')

segments_from-last : (cur s : Str) → HasNoSlash s → segments_from cur s ≡ segment (cur ++ s)
unfolding segments_from
segments_from-last cur [] h = rw append-nil refl
segments_from-last cur (c ∷ s) h =
    let f : (c == b'/') ≡ false = ground arith in
    rw (segments_from, f)
      (segments_from-last (cur ++ c ∷ []) s h.1 ∙ ap segment (append_assoc cur (c ∷ []) s))

segments_from-slash :
    (cur s rest : Str)
    → HasNoSlash s
    → segments_from cur (s ++ (codes "/" ++ rest)) ≡ segment (cur ++ s) ++ segments_from [] rest
unfolding segments_from
segments_from-slash cur [] rest h = rw append-nil refl
segments_from-slash cur (c ∷ s) rest h =
    let f : (c == b'/') ≡ false = ground arith in
    rw (segments_from, f)
      (segments_from-slash (cur ++ c ∷ []) s rest h.1
        ∙ ap (λ t. segment t ++ segments_from [] rest) (append_assoc cur (c ∷ []) s))

-- The target of the path of a scope is the scope, where its project is not empty and neither id
-- has a slash; the project root has no worktree.
pub target_of-scope_path :
    (pid wid : Str)
    → truthy pid ≡ true
    → truthy wid ≡ true
    → HasNoSlash pid
    → HasNoSlash wid
    → (target_of (scope_path pid (some wid)) ≡ (some pid, some wid))
      × (target_of (scope_path pid none) ≡ (some pid, none))
unfolding target_of segments_from ◌===◌
target_of-scope_path pid wid p w h k = (with_worktree_path, at_root)
  where
    with_worktree_path :
        target_in (codes "p" ∷ segments_from [] (pid ++ worktree_path (some wid)))
        ≡ (some pid, some wid)
    with_worktree_path =
        rw (w, segments_from-slash [] pid (codes "w/" ++ wid) h, p, segments_from-last [] wid k, w)
          refl

    at_root : target_in (codes "p" ∷ segments_from [] (pid ++ [])) ≡ (some pid, none)
    at_root = rw (append-nil, segments_from-last [] pid h, p) refl
