-- ===== src/Memory.antt =====
-- The registry of the memory that the parts of the client use
-- (apps/web/src/core/lib/memory.ts). Byte counts are whole numbers; `none` is one that is not
-- finite. `JSON.stringify` is an argument.
pub mod Monitor
pub mod Sorted
mod Examples
use agentgrove.Base.{
  Dict, List, Option, Str, [], foldl, if◌then◌else◌, insert, length, lookup, ltb, map, none, remove,
  some, truthy, ℕ, ◌*◌, ◌+◌, ◌∷◌,
}
use agentgrove.Base.Int.{ℤ}
use agentgrove.Base.Json.{Json, bool, null, num, str}

pub record MemoryEntry : Type 0 where
  pub id : Str
  pub label : Str
  pub bytes : ℕ

pub record MemorySnapshot : Type 0 where
  pub total : ℕ
  pub entries : List MemoryEntry

pub record Registry : Type 0 where
  pub labels : Dict Str
  pub store : Dict ℕ

-- `m[k] = v` where `k in m` fails.
abbrev pub insert_new {ℓ} : {V : Type ℓ} → Str → V → Dict V → Dict V
insert_new k v m = elim (lookup k m) [ none ↦ insert k v m | some w ↦ m ]

unfoldable pub declare_memory_source : Str → Str → Registry → Registry
declare_memory_source id label r = record {
  labels = insert id label r.labels;
  store = insert_new id 0 r.store;
}

-- A count that is not finite or is negative counts as none.
abbrev pub counted : Option ℤ → ℕ
counted none = 0
counted (some (ℤ.pos n)) = n
counted (some (ℤ.negsuc n)) = 0

unfoldable pub record_memory_usage : Str → Option ℤ → Registry → Registry
record_memory_usage id bytes r = record {
  labels = insert_new id id r.labels;
  store = insert id (counted bytes) r.store;
}

unfoldable pub clear_memory_source : Str → Registry → Registry
clear_memory_source id r = record { labels = remove id r.labels; store = remove id r.store }

abbrev pub label_or : Str → Option Str → Str
label_or id none = id
label_or id (some label) = label

abbrev pub entry_of : Dict Str → Str × ℕ → MemoryEntry
entry_of labels (id, bytes) = record {
  id = id;
  label = label_or id (lookup id labels);
  bytes = bytes;
}

-- `entries.sort((a, b) => b.bytes - a.bytes)`, which keeps the order of equal entries.
abbrev pub place : MemoryEntry → List MemoryEntry → List MemoryEntry
place e [] = e ∷ []
place e (f ∷ fs) = let rest = place e fs in if ltb f.bytes e.bytes then e ∷ f ∷ fs else f ∷ rest

abbrev pub sort_entries : List MemoryEntry → List MemoryEntry → List MemoryEntry
sort_entries sorted [] = sorted
sort_entries sorted (e ∷ es) = sort_entries (place e sorted) es

abbrev pub add_bytes : ℕ → Str × ℕ → ℕ
add_bytes n (id, bytes) = n + bytes

unfoldable pub memory_snapshot : Registry → MemorySnapshot
memory_snapshot r = record {
  total = foldl add_bytes 0 r.store;
  entries = sort_entries [] (map (entry_of r.labels) r.store);
}

unfoldable pub estimate_string_bytes : Str → ℕ
estimate_string_bytes s = if truthy s then length s * 2 + 24 else 0

-- A text that `JSON.stringify` gives, or none where it throws.
unfoldable pub estimate_json_bytes : (Json → Option Str) → Json → ℕ
unfolding estimate_string_bytes
estimate_json_bytes stringify null = 8
estimate_json_bytes stringify (str s) = estimate_string_bytes s
estimate_json_bytes stringify (num n) = 16
estimate_json_bytes stringify (bool b) = 16
estimate_json_bytes stringify v = elim (stringify v) [ none ↦ 256 | some s ↦ length s * 2 + 64 ]
