-- ===== src/Memory/Sorted.antt =====
-- The snapshot of the registry (apps/web/src/core/lib/memory.ts).
use agentgrove.Base.{
  Bool-cases, Dict, List, Str, [], arith, foldl, inl, inr, ltb, ltb→lt, lt→ltb, map, refl, sym, ℕ,
  ◌+◌, ◌∙◌, ◌∷◌, ◌≡◌, ◌≤◌,
}
use agentgrove.Memory.{
  MemoryEntry, Registry, add_bytes, entry_of, memory_snapshot, place, sort_entries,
}

abbrev pub bytes_of : List MemoryEntry → ℕ
bytes_of [] = 0
bytes_of (e ∷ es) = e.bytes + bytes_of es

-- Each entry has at least as many bytes as the next.
abbrev pub IsDescending : List MemoryEntry → Type 0
IsDescending [] = Unit
IsDescending (e ∷ []) = Unit
IsDescending (e ∷ f ∷ fs) = (f.bytes ≤ e.bytes) × IsDescending (f ∷ fs)

IsDescending-under :
    (f : MemoryEntry) (e : MemoryEntry) (fs : List MemoryEntry)
    → e.bytes ≤ f.bytes
    → IsDescending (f ∷ fs)
    → IsDescending (place e fs)
    → IsDescending (f ∷ place e fs)
IsDescending-under f e [] le d h = (le, tt)
IsDescending-under f e (g ∷ gs) le (m, d) h = elim (Bool-cases (ltb g.bytes e.bytes)) [
  | inl t ↦ rw t (le, (ground (arith, ltb→lt g.bytes e.bytes), d))
  | inr t ↦ rw t (m, (rw t at h))
]

IsDescending-tail :
    (f : MemoryEntry) (fs : List MemoryEntry) → IsDescending (f ∷ fs) → IsDescending fs
IsDescending-tail f [] d = tt
IsDescending-tail f (g ∷ gs) (m, d) = d

IsDescending-place :
    (e : MemoryEntry) (fs : List MemoryEntry) → IsDescending fs → IsDescending (place e fs)
IsDescending-place e [] d = tt
IsDescending-place e (f ∷ fs) d = elim (Bool-cases (ltb f.bytes e.bytes)) [
  | inl t ↦ rw t (ground (arith, ltb→lt f.bytes e.bytes), d)
  | inr t ↦ rw t (
      IsDescending-under f e fs (ground (arith, lt→ltb f.bytes e.bytes)) d
        (IsDescending-place e fs (IsDescending-tail f fs d)))
]

bytes_of-place :
    (e : MemoryEntry) (fs : List MemoryEntry) → bytes_of (place e fs) ≡ e.bytes + bytes_of fs
bytes_of-place e [] = refl
bytes_of-place e (f ∷ fs) = elim (Bool-cases (ltb f.bytes e.bytes)) [
  | inl t ↦ rw t refl
  | inr t ↦ rw t (omega (arith, bytes_of-place e fs))
]

IsDescending-sort_entries :
    (sorted es : List MemoryEntry) → IsDescending sorted → IsDescending (sort_entries sorted es)
IsDescending-sort_entries sorted [] d = d
IsDescending-sort_entries sorted (e ∷ es) d =
    IsDescending-sort_entries (place e sorted) es (IsDescending-place e sorted d)

bytes_of-sort_entries :
    (sorted es : List MemoryEntry)
    → bytes_of (sort_entries sorted es) ≡ bytes_of sorted + bytes_of es
bytes_of-sort_entries sorted [] = omega arith
bytes_of-sort_entries sorted (e ∷ es) =
    bytes_of-sort_entries (place e sorted) es ∙ omega (arith, bytes_of-place e sorted)

total-entries :
    (labels : Dict Str) (n : ℕ) (m : Dict ℕ)
    → foldl add_bytes n m ≡ n + bytes_of (map (entry_of labels) m)
total-entries labels n [] = omega arith
total-entries labels n ((id, bytes) ∷ m) = total-entries labels (n + bytes) m ∙ omega arith

-- The entries of a snapshot stand with the largest first, and their bytes add up to the total.
pub memory_snapshot-IsDescending :
    (r : Registry)
    → IsDescending (memory_snapshot r).entries
      × (bytes_of (memory_snapshot r).entries ≡ (memory_snapshot r).total)
unfolding memory_snapshot
memory_snapshot-IsDescending r = (
  IsDescending-sort_entries [] (map (entry_of r.labels) r.store) tt,
  bytes_of-sort_entries [] (map (entry_of r.labels) r.store)
      ∙ sym (total-entries r.labels 0 r.store),
)
