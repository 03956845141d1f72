-- ===== src/Base/Json.antt =====
-- Values that `JSON.parse` returns. Fractional numbers are not modelled.
use mathlib.Core.Bool.{Bool, true, false, not}
use mathlib.Core.Option.{Option, none, some}
use agentgrove.Base.Tests.{if◌then◌else◌}
use agentgrove.Base.Strs.{Str, ◌===◌, truthy}
use agentgrove.Base.Int.{ℤ, is_zero}

mutual
  pub data Json : Type 0 where
    null : Json
    bool : Bool → Json
    num : ℤ → Json
    str : Str → Json
    arr : Items → Json
    obj : Fields → Json

  pub data Items : Type 0 where
    nil : Items
    cons : Json → Items → Items

  pub data Fields : Type 0 where
    end : Fields
    field : Str → Json → Fields → Fields

-- The truth value of an optional value; a missing one is false.
abbrev pub is_truthy : Option Json → Bool
is_truthy none = false
is_truthy (some null) = false
is_truthy (some (bool b)) = b
is_truthy (some (num n)) = not (is_zero n)
is_truthy (some (str s)) = truthy s
is_truthy (some (arr xs)) = true
is_truthy (some (obj fs)) = true

-- The last of several equal keys counts, as in `JSON.parse`.
unfoldable pub member : Str → Fields → Option Json
member k end = none
member k (field j v fs) = elim (member k fs) [
  | some w ↦ some w
  | none ↦ if j === k then some v else none
]

-- `v.k`; only an object has named members here.
abbrev pub get_member : Str → Json → Option Json
get_member k (obj fs) = member k fs
get_member k null = none
get_member k (bool b) = none
get_member k (num n) = none
get_member k (str s) = none
get_member k (arr xs) = none

-- `typeof v === "object"`, which holds of `null` and of arrays too.
abbrev pub is_object : Json → Bool
is_object null = true
is_object (arr xs) = true
is_object (obj fs) = true
is_object (bool b) = false
is_object (num n) = false
is_object (str s) = false
