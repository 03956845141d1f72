-- ===== src/Menu/Range.antt =====
-- The marked row of the menu is one of its rows (apps/web/src/ui/Select.tsx).
use agentgrove.Base.{
  Bool, Bool-cases, List, Option, Option-cases, Str, [], arith, codes, false, false≢true,
  find_index, if_false, if_true, if◌then◌else◌, inl, inr, length, none, none_not_some, not, refl,
  some, some_inj, subst, suc, sym, true, zero, ℕ, ◌&&◌, ◌<◌, ◌===◌, ◌||◌, ◌∙◌, ◌∷◌, ◌≡◌,
}
use agentgrove.Menu.{
  SelectMenu, SelectOption, closed_menu, idx_or_zero, last_idx, next_idx, on_menu_key,
  on_trigger_key, picked, prev_idx, toggle, value_at,
}

abbrev IsRow : ℕ → Option ℕ → Type 0
IsRow n none = ⊥
IsRow n (some i) = i < n

-- An open menu marks one of its rows.
abbrev pub IsInRange : List SelectOption → SelectMenu → Type 0
IsInRange options m = m.is_open ≡ true → IsRow (length options) m.active_idx

find_index-bound :
    (p : SelectOption → Bool) (options : List SelectOption) {i : ℕ}
    → find_index p options ≡ some i
    → i < length options
find_index-bound p [] h = absurd (none_not_some h)
find_index-bound p (o ∷ os) {i} h = elim (Bool-cases (p o)) [
  | inl e ↦ let at : 0 ≡ i = some_inj (sym (rw e refl) ∙ h) in omega (arith, at)
  | inr e ↦ elim (Option-cases (find_index p os)) [
    | inl k ↦ absurd (none_not_some {a = i} (sym (rw (e, k) refl) ∙ h))
    | inr (n, k) ↦
        let at : suc n ≡ i = some_inj (sym (rw (e, k) refl) ∙ h) in
        omega (arith, at, find_index-bound p os k)
  ]
]

IsInRange-closed : (options : List SelectOption) → IsInRange options closed_menu
IsInRange-closed options h = absurd (false≢true h)

IsInRange-toggle :
    (options : List SelectOption) (value : Str) (disabled : Bool) (m : SelectMenu)
    → 0 < length options
    → IsInRange options m
    → IsInRange options (toggle options value disabled m)
unfolding toggle
IsInRange-toggle options value disabled m le r = elim (Bool-cases disabled) [
  | inl e ↦ subst (IsInRange options) (sym (if_true _ _ _ e)) r
  | inr e ↦ subst (IsInRange options) (sym (if_false _ _ _ e)) (elim (Bool-cases m.is_open) [
    | inl k ↦ subst (IsInRange options) (sym (if_true _ _ _ k)) (IsInRange-closed options)
    | inr k ↦ subst (IsInRange options) (sym (if_false _ _ _ k)) (λ h. row _ refl)
  ])
]
  where
    row :
        (o : Option ℕ)
        → find_index (λ (x : SelectOption). x.value === value) options ≡ o
        → idx_or_zero o < length options
    row none e = le
    row (some i) e = find_index-bound _ options e

IsRow-next : (n : ℕ) (o : Option ℕ) → 0 < n → IsRow n (next_idx n o)
IsRow-next zero o le = absurd (omega (arith, le))
IsRow-next (suc n) none le = omega arith
IsRow-next (suc n) (some i) le = omega arith

IsRow-prev : (n : ℕ) (o : Option ℕ) → 0 < n → IsRow n o → IsRow n (prev_idx o)
IsRow-prev n none le h = le
IsRow-prev n (some i) le h = omega (arith, h)

IsRow-last : (n : ℕ) → 0 < n → IsRow n (last_idx n)
IsRow-last zero le = absurd (omega (arith, le))
IsRow-last (suc n) le = omega arith

-- What a key leaves, and the value that it picks: a menu in its range, and the value of the row that
-- was marked.
abbrev pub IsSound : List SelectOption → SelectMenu → SelectMenu × Option Str → Type 0
IsSound options m r =
    IsInRange options r.0 × ((v : Str) → r.1 ≡ some v → value_at m.active_idx options ≡ some v)

IsSound-none :
    (options : List SelectOption) (m n : SelectMenu)
    → IsInRange options n
    → IsSound options m (n, none)
IsSound-none options m n r = (r, λ v h. absurd (none_not_some h))

IsSound-picked :
    (options : List SelectOption) (m : SelectMenu) (o : Option Str)
    → value_at m.active_idx options ≡ o
    → IsInRange options m
    → IsSound options m (picked o m)
IsSound-picked options m none e r = IsSound-none options m m r
IsSound-picked options m (some v) e r = (IsInRange-closed options, λ w h. e ∙ h)

-- One test of a key.
IsSound-if :
    (options : List SelectOption) (m : SelectMenu) (b : Bool) (x y : SelectMenu × Option Str)
    → IsSound options m x
    → IsSound options m y
    → IsSound options m (if b then x else y)
IsSound-if options m true x y h k = h
IsSound-if options m false x y h k = k

-- In a menu that has options: opening it by a key, and every key in it, leave an open menu with one
-- of its rows marked, and a key picks a value only if it is the one of the row that was marked.
pub on_menu_key-IsInRange :
    (key : Str) (options : List SelectOption) (value : Str) (disabled : Bool) (m : SelectMenu)
    → 0 < length options
    → IsInRange options m
    → IsInRange options (on_trigger_key key options value disabled m)
      × IsSound options m (on_menu_key key options m)
unfolding on_trigger_key on_menu_key
on_menu_key-IsInRange key options value disabled m le r = (
  trigger
      (not disabled && (key === codes "Enter" || (key === codes " " || key === codes "ArrowDown"))),
  keys,
)
  where
    trigger : (b : Bool) → IsInRange options (if b then toggle options value disabled m else m)
    trigger true = IsInRange-toggle options value disabled m le r
    trigger false = r

    sound : (n : SelectMenu) → IsInRange options n → IsSound options m (n, none)
    sound n h = IsSound-none options m n h

    keys : IsSound options m (on_menu_key key options m)
    keys = IsSound-if options m (not m.is_open) _ _ (sound m r) (
        IsSound-if options m (key === codes "Escape") _ _
          (sound closed_menu (IsInRange-closed options))
          (IsSound-if options m (key === codes "ArrowDown") _ _
            (sound (record m { active_idx = next_idx (length options) m.active_idx })
              (λ h. IsRow-next (length options) m.active_idx le))
            (IsSound-if options m (key === codes "ArrowUp") _ _
              (sound (record m { active_idx = prev_idx m.active_idx })
                (λ h. IsRow-prev (length options) m.active_idx le (r h)))
              (IsSound-if options m (key === codes "Home") _ _
                (sound (record m { active_idx = some 0 }) (λ h. le))
                (IsSound-if options m (key === codes "End") _ _
                  (sound (record m { active_idx = last_idx (length options) })
                    (λ h. IsRow-last (length options) le))
                  (IsSound-if options m (key === codes "Enter") _ _
                    (IsSound-picked options m (value_at m.active_idx options) refl r)
                    (sound m r)))))))
