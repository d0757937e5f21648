-- ===== src/NodeList/Shape.antt =====
-- How the abstract operations change the addresses, the length, the last node and the distinctness
-- of a list's cells.
use hash_map_storage_service.Prelude.{
  ℕ, ◌+◌, ◌<◌, ◌≤◌, ◌≡◌, refl, Option, some, [], ◌∷◌, ◌++◌, length, arith, Bool-cases, true, false,
  ◌==◌, ◌||◌,
}
use hash_map_storage_service.Prelude.Text.{Text, text_eq_symm}
use hash_map_storage_service.Data.{Data}
use hash_map_storage_service.NodeList.Cells.{
  Cells, Cell, cell, has, has_key, Below, Distinct, assign, erase, last,
}
use hash_map_storage_service.NodeList.Frame.{
  has_key-assign, has_key-append, has_key-erase, has_key-congr,
}

pub length-snoc : (xs : Cells) (c : Cell) → length (xs ++ c ∷ []) ≡ length xs + 1
length-snoc [] c = omega arith
length-snoc (x ∷ xs) c = omega (arith, length-snoc xs c)

pub last-snoc : (xs : Cells) (c : Cell) → last (xs ++ c ∷ []) ≡ some c.address
last-snoc [] c = refl
last-snoc (x ∷ []) c = refl
last-snoc (x ∷ y ∷ xs) c = last-snoc (y ∷ xs) c

pub has-snoc :
    (a : ℕ) (xs : Cells) (c : Cell) → has a (xs ++ c ∷ []) ≡ (has a xs || (a == c.address))
has-snoc a [] c = ground arith
has-snoc a (x ∷ xs) c = ground (arith, has-snoc a xs c)

pub Below-snoc :
    (n : ℕ) (xs : Cells) (c : Cell) → Below n xs → c.address < n → Below n (xs ++ c ∷ [])
Below-snoc n [] c b h = (h, tt)
Below-snoc n (x ∷ xs) c b h = (b.0, Below-snoc n xs c b.1 h)

pub Distinct-snoc :
    (xs : Cells) (a : ℕ) (k : Text) (v : Option Data)
    → Distinct xs
    → has_key k xs ≡ false
    → Distinct (xs ++ cell a k v ∷ [])
Distinct-snoc [] a k v d h = (refl, tt)
Distinct-snoc (x ∷ xs) a k v d h = (
  ground (arith, has_key-append k x.key a v xs, text_eq_symm k x.key),
  Distinct-snoc xs a k v d.1 (ground arith),
)

-- the last node is one of the nodes
pub has-last : (a : ℕ) (xs : Cells) → last xs ≡ some a → has a xs ≡ true
has-last a [] e = ground arith
has-last a (x ∷ []) e = ground arith
has-last a (x ∷ y ∷ xs) e = ground (arith, has-last a (y ∷ xs))

module _ (k : Text) (v : Option Data) where
  pub length-assign : (xs : Cells) → length (assign k v xs) ≡ length xs
  unfolding assign
  length-assign [] = refl
  length-assign (x ∷ xs) = ground (arith, length-assign xs)

  pub has-assign : (a : ℕ) (xs : Cells) → has a (assign k v xs) ≡ has a xs
  unfolding assign
  has-assign a [] = refl
  has-assign a (x ∷ xs) = ground (arith, has-assign a xs)

  pub Below-assign : (n : ℕ) (xs : Cells) → Below n xs → Below n (assign k v xs)
  unfolding assign
  Below-assign n [] b = tt
  Below-assign n (x ∷ xs) b = ground (arith, Below-assign n xs)

  pub last-assign : (xs : Cells) → last (assign k v xs) ≡ last xs
  unfolding assign
  last-assign [] = refl
  last-assign (x ∷ []) = ground arith
  last-assign (x ∷ y ∷ xs) = ground (arith, last-assign (y ∷ xs))

  pub Distinct-assign : (xs : Cells) → Distinct xs → Distinct (assign k v xs)
  unfolding assign
  Distinct-assign [] d = tt
  Distinct-assign (x ∷ xs) d =
      ground (arith, Distinct-assign xs d.1, has_key-assign k x.key v xs, has_key-congr k x.key xs)

module _ (k : Text) where
  pub length-erase : (xs : Cells) → has_key k xs ≡ true → length (erase k xs) + 1 ≡ length xs
  unfolding erase
  length-erase [] h = ground arith
  length-erase (x ∷ xs) h = ground (arith, length-erase xs)

  pub length-erase-le : (xs : Cells) → length (erase k xs) ≤ length xs
  unfolding erase
  length-erase-le [] = omega arith
  length-erase-le (x ∷ xs) = ground (arith, length-erase-le xs)

  pub has-erase : (a : ℕ) (xs : Cells) → has a xs ≡ false → has a (erase k xs) ≡ false
  unfolding erase
  has-erase a [] h = refl
  has-erase a (x ∷ xs) h = ground (arith, has-erase a xs)

  pub Below-erase : (n : ℕ) (xs : Cells) → Below n xs → Below n (erase k xs)
  unfolding erase
  Below-erase n [] b = tt
  Below-erase n (x ∷ xs) b = ground (arith, Below-erase n xs)

  pub Distinct-erase : (xs : Cells) → Distinct xs → Distinct (erase k xs)
  unfolding erase
  Distinct-erase [] d = tt
  Distinct-erase (x ∷ xs) d = ground (
    arith,
    Distinct-erase xs d.1,
    Bool-cases (has_key x.key (erase k xs)),
    has_key-erase k x.key xs,
  )
