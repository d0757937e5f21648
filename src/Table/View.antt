-- ===== src/Table/View.antt =====
-- The abstract map of a table, and how a write of one row changes it.
use hash_map_storage_service.Prelude.{
  ℕ, zero, suc, ◌≡◌, refl, sym, Option, none, some, List, [], ◌∷◌, set, true, false, arith, Bool,
}
use hash_map_storage_service.Prelude.Text.{Text}
use hash_map_storage_service.Entry.{Entry}
use hash_map_storage_service.NodeList.Cells.{Cells, find, has_key}
use hash_map_storage_service.NodeList.Frame.{find-none}
use hash_map_storage_service.Table.Rows.{row}

-- The first of two options that is there.
abbrev pub or_else {ℓ} : {A : Type ℓ} → Option A → Option A → Option A
or_else none b = b
or_else (some a) b = some a

-- The entry that the rows hold for a key.
unfoldable pub view : Text → List Cells → Option Entry
view k [] = none
view k (xs ∷ xss) = or_else (find k xs) (view k xss)

or_else-none {ℓ} : {A : Type ℓ} (a : Option A) → or_else a none ≡ a
or_else-none none = refl
or_else-none (some a) = refl

eq_false : (b : Bool) → (b ≡ true → ⊥) → b ≡ false
eq_false true h = absurd (h refl)
eq_false false h = refl

view-none :
    (k : Text) (xss : List Cells) → ((j : ℕ) → has_key k (row xss j) ≡ false) → view k xss ≡ none
unfolding view
view-none k [] h = refl
view-none k (xs ∷ xss) h = rw (find-none k xs (h 0)) (view-none k xss (λ j. h (suc j)))

-- A key that is in one row at most is looked up in that row.
pub view-row :
    (k : Text) (xss : List Cells) (i : ℕ)
    → ((j : ℕ) → has_key k (row xss j) ≡ true → j ≡ i)
    → view k xss ≡ find k (row xss i)
unfolding view
view-row k [] i only = sym (find-none k [] refl)
view-row k (xs ∷ xss) zero only =
    rw
      (view-none k xss
        (λ j. eq_false (has_key k (row xss j)) (λ h. absurd (omega (arith, only (suc j) h)))))
      (or_else-none (find k xs))
view-row k (xs ∷ xss) (suc i) only =
    rw (find-none k xs (eq_false (has_key k xs) (λ h. absurd (omega (arith, only 0 h)))))
      (view-row k xss i (λ j h. omega (arith, only (suc j) h)))

-- A write that leaves the lookup of a key in its row alone leaves the map alone.
pub view-set_same :
    (k : Text) (xss : List Cells) (i : ℕ) (ys : Cells)
    → find k ys ≡ find k (row xss i)
    → view k (set xss i ys) ≡ view k xss
unfolding view
view-set_same k [] i ys e = refl
view-set_same k (xs ∷ xss) zero ys e = rw e
view-set_same k (xs ∷ xss) (suc i) ys e = rw (view-set_same k xss i ys e)
