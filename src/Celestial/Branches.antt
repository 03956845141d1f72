-- ===== src/Celestial/Branches.antt =====
-- Branch names and the bodies they stand for: `slug`, `suggestBranchName` and `parseCelestial` of
-- apps/web/src/core/lib/celestial.ts. The random draws and the time are arguments.
use agentgrove.Base.{
  Bool, Dict, List, Option, Str, [], any, codes, false, find, foldl, if◌then◌else◌, insert,
  is_space, last_part, leb, lookup, ltb, map, none, not, some, take, ℕ, ◌%◌, ◌&&◌, ◌++◌, ◌+◌, ◌/◌,
  ◌===◌, ◌==◌, ◌∷◌,
}
use agentgrove.Celestial.Bodies.{CelestialBody}
use agentgrove.Celestial.Stars.{stars}
use agentgrove.Celestial.Planets.{planets}
use agentgrove.Celestial.Galaxies.{galaxies}

unfoldable pub all_celestial : List CelestialBody
unfolding stars planets galaxies
all_celestial = stars ++ (planets ++ galaxies)

-- `toLowerCase`, as far as its result can be ASCII: the capitals, the Kelvin sign, and the capital
-- I with a dot. A letter that has no ASCII character in its lower case is left alone.
abbrev pub lower : ℕ → Str
lower c =
    if leb b'A' c && leb c b'Z'
    then (c + 32) ∷ []
    else (if c == 8490 then b'k' ∷ [] else (if c == 304 then b'i' ∷ 775 ∷ [] else c ∷ []))

unfoldable pub to_lower : Str → Str
to_lower [] = []
to_lower (c ∷ s) = lower c ++ to_lower s

-- `replace(/\s+/g, "-")`; the flag says that the character before was white space.
unfoldable pub dashes : Bool → Str → Str
dashes after [] = []
dashes after (c ∷ s) =
    let rest = dashes (is_space c) s in
    if is_space c then (if after then rest else b'-' ∷ rest) else c ∷ rest

unfoldable pub slug : Str → Str
unfolding dashes to_lower
slug display = dashes false (to_lower display)

abbrev pub name_of : CelestialBody → Str
name_of b = codes "feature/" ++ slug b.display

abbrev pub hex_digit : ℕ → ℕ
hex_digit d = if ltb d 10 then b'0' + d else 87 + d

-- `toString(16).padStart(4, "0")` of a number below `0x10000`.
abbrev pub hex4 : ℕ → Str
hex4 n =
    hex_digit (n / 4096 % 16)
    ∷ hex_digit (n / 256 % 16)
    ∷ hex_digit (n / 16 % 16)
    ∷ hex_digit (n % 16)
    ∷ []

abbrev pub suffixed : CelestialBody × ℕ → Str
suffixed (b, n) = name_of b ++ (codes "-" ++ hex4 n)

abbrev pub is_taken : List Str → Str → Bool
is_taken taken name = any (λ t. t === name) taken

-- A loop that returns the first name that is free.
abbrev pub first_free : List Str → List Str → Option Str
first_free taken names = find (λ n. not (is_taken taken n)) names

abbrev pub or_else : Option Str → Option Str → Option Str
or_else none next = next
or_else (some name) next = some name

abbrev pub or_fallback : Option Str → Str → Str
or_fallback none fallback = fallback
or_fallback (some name) fallback = name

abbrev pub fallback_name : Str → Str
fallback_name stamp = codes "feature/orbit-" ++ stamp

-- `draws` and `late` are what the calls of `pick`, and of `random` for the suffix, give.
unfoldable pub suggest_branch_name :
    List Str → List CelestialBody → List (CelestialBody × ℕ) → Str → Str
suggest_branch_name taken draws late stamp =
    or_fallback
      (or_else (first_free taken (map name_of (take 50 draws))) (
        or_else (first_free taken (map name_of all_celestial))
          (first_free taken (map suffixed (take 200 late)))))
      (fallback_name stamp)

-- `new Map(…)`: of two bodies with one slug the later one counts.
unfoldable pub by_slug : List CelestialBody → Dict CelestialBody
by_slug bodies = foldl (λ m (b : CelestialBody). insert (slug b.display) b m) [] bodies

unfoldable pub parse_celestial : Str → Option CelestialBody
unfolding by_slug last_part
parse_celestial branch = lookup (to_lower (last_part [] branch)) (by_slug all_celestial)
