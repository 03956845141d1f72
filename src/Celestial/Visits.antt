-- ===== src/Celestial/Visits.antt =====
-- The bodies that branches visit: `extractVisits`, `countVisits` and `visitsByKind` of
-- apps/web/src/core/lib/celestial.ts.
use agentgrove.Base.{
  Bool, Bool-cases, Dict, List, Option, Str, [], any, ap, arith, foldl, if◌then◌else◌, inl, inr,
  insert, lookup, map, none, refl, some, sym, ℕ, ◌++◌, ◌+◌, ◌===◌, ◌∙◌, ◌∷◌, ◌≡◌,
}
use agentgrove.Celestial.Bodies.{CelestialBody}
use agentgrove.Celestial.Branches.{parse_celestial}

abbrev pub is_shown : Str → CelestialBody → Bool
is_shown display v = v.display === display

-- One round of the loop; `seen` holds the displays of `out`.
unfoldable pub add_visit : List CelestialBody → Option CelestialBody → List CelestialBody
add_visit out none = out
add_visit out (some b) = if any (is_shown b.display) out then out else out ++ b ∷ []

unfoldable pub extract_visits : List Str → List CelestialBody
unfolding add_visit
extract_visits branches = foldl (λ out branch. add_visit out (parse_celestial branch)) [] branches

abbrev or_zero : Option ℕ → ℕ
or_zero none = 0
or_zero (some n) = n

unfoldable pub count_visit : Dict ℕ → Option CelestialBody → Dict ℕ
count_visit counts none = counts
count_visit counts (some b) = insert b.display (or_zero (lookup b.display counts) + 1) counts

unfoldable pub count_visits : List Str → Dict ℕ
unfolding count_visit
count_visits branches =
    foldl (λ counts branch. count_visit counts (parse_celestial branch)) [] branches

abbrev pub keys {ℓ} : {V : Type ℓ} → Dict V → List Str
keys m = map (λ e. e.0) m

abbrev pub displays : List CelestialBody → List Str
displays bodies = map (λ (b : CelestialBody). b.display) bodies

-- The list with the key at its end, if it is not there yet.
abbrev with_key : Str → List Str → List Str
with_key k ks = if any (λ j. j === k) ks then ks else ks ++ k ∷ []

keys-insert : (k : Str) (n : ℕ) (m : Dict ℕ) → keys (insert k n m) ≡ with_key k (keys m)
unfolding insert
keys-insert k n [] = refl
keys-insert k n ((j, v) ∷ m) = elim (Bool-cases (j === k)) [
  | inl t ↦ rw t refl
  | inr t ↦ elim (Bool-cases (any (λ i. i === k) (keys m))) [
    | inl u ↦ rw (t, u) (ap (j ∷◌) (keys-insert k n m ∙ rw u refl))
    | inr u ↦ rw (t, u) (ap (j ∷◌) (keys-insert k n m ∙ rw u refl))
  ]
]

any-displays :
    (k : Str) (out : List CelestialBody) → any (is_shown k) out ≡ any (λ j. j === k) (displays out)
any-displays k [] = refl
any-displays k (b ∷ out) = rw (any-displays k out) refl

displays-append :
    (out : List CelestialBody) (b : CelestialBody)
    → displays (out ++ b ∷ []) ≡ displays out ++ b.display ∷ []
displays-append [] b = refl
displays-append (v ∷ out) b = ap (v.display ∷◌) (displays-append out b)

displays-add_visit :
    (out : List CelestialBody) (b : CelestialBody)
    → displays (add_visit out (some b)) ≡ with_key b.display (displays out)
unfolding add_visit
displays-add_visit out b = elim (Bool-cases (any (is_shown b.display) out)) [
  | inl t ↦ rw (t, sym (any-displays b.display out) ∙ t) refl
  | inr t ↦ rw (t, sym (any-displays b.display out) ∙ t) (displays-append out b)
]

count_step :
    (m : Dict ℕ) (out : List CelestialBody) (b : Option CelestialBody)
    → keys m ≡ displays out
    → keys (count_visit m b) ≡ displays (add_visit out b)
unfolding count_visit add_visit
count_step m out none e = e
count_step m out (some b) e =
    keys-insert b.display _ m ∙ ap (with_key b.display) e ∙ sym (displays-add_visit out b)

count_all :
    (m : Dict ℕ) (out : List CelestialBody) (branches : List Str)
    → keys m ≡ displays out
    → keys (foldl (λ counts branch. count_visit counts (parse_celestial branch)) m branches)
      ≡ displays (foldl (λ o branch. add_visit o (parse_celestial branch)) out branches)
count_all m out [] e = e
count_all m out (branch ∷ branches) e =
    count_all (count_visit m (parse_celestial branch)) (add_visit out (parse_celestial branch))
      branches (count_step m out (parse_celestial branch) e)

-- The counts are kept for the bodies visited, in the order of their first visit, and for no other.
pub keys-count_visits :
    (branches : List Str) → keys (count_visits branches) ≡ displays (extract_visits branches)
unfolding count_visits extract_visits
keys-count_visits branches = count_all [] [] branches refl

abbrev pub total : Dict ℕ → ℕ
total [] = 0
total ((j, n) ∷ m) = n + total m

abbrev is_body : Option CelestialBody → ℕ
is_body none = 0
is_body (some b) = 1

abbrev pub recognised : List Str → ℕ
recognised [] = 0
recognised (branch ∷ branches) = is_body (parse_celestial branch) + recognised branches

-- What an update adds to the total.
total-insert :
    (k : Str) (n : ℕ) (m : Dict ℕ) → total (insert k n m) + or_zero (lookup k m) ≡ total m + n
unfolding insert lookup
total-insert k n [] = omega arith
total-insert k n ((j, v) ∷ m) = elim (Bool-cases (j === k)) [
  | inl t ↦ rw (insert, lookup, t) (omega arith)
  | inr t ↦ rw (insert, lookup, t) (omega (arith, total-insert k n m))
]

total-count_visit :
    (m : Dict ℕ) (b : Option CelestialBody) → total (count_visit m b) ≡ total m + is_body b
unfolding count_visit
total-count_visit m none = omega arith
total-count_visit m (some b) =
    omega (arith, total-insert b.display (or_zero (lookup b.display m) + 1) m)

total_all :
    (m : Dict ℕ) (branches : List Str)
    → total (foldl (λ counts branch. count_visit counts (parse_celestial branch)) m branches)
      ≡ total m + recognised branches
total_all m [] = omega arith
total_all m (branch ∷ branches) = omega (
  arith,
  total_all (count_visit m (parse_celestial branch)) branches,
  total-count_visit m (parse_celestial branch),
)

-- The counts add up to the number of branches that are named after a body.
pub total-count_visits : (branches : List Str) → total (count_visits branches) ≡ recognised branches
unfolding count_visits
total-count_visits branches = total_all [] branches ∙ omega arith
