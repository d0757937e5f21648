-- ===== src/NodeList/Frame.antt =====
-- What the cells of a list keep when the heap changes elsewhere, and how the abstract operations
-- act on keys, addresses and lengths.
use hash_map_storage_service.Prelude.{
  ℕ, ◌≤◌, ◌≡◌, refl, Option, none, some, [], ◌∷◌, ◌++◌, arith, true, false, is_some, if◌then◌else◌,
  ◌||◌, ◌∙◌,
}
use hash_map_storage_service.Prelude.Text.{Text, text_eq, text_eq_symm, text_eq_congr}
use hash_map_storage_service.Data.{Data}
use hash_map_storage_service.Entry.{entry}
use hash_map_storage_service.NodeList.{Ptr, Heap, Node, write}
use hash_map_storage_service.NodeList.Cells.{
  Cells, cell, Chain, find, has, has_key, Below, Distinct, assign, erase,
}

pub Chain-frame :
    (h g : Heap) (p : Ptr) (xs : Cells)
    → Chain h p xs
    → ((a : ℕ) → has a xs ≡ true → g a ≡ h a)
    → Chain g p xs
Chain-frame h g p [] c same = c
Chain-frame h g p (x ∷ xs) (e, (q, holds, out, c)) same = (
  e,
  (
    q,
    same x.address (ground arith) ∙ holds,
    out,
    Chain-frame h g q xs c (λ a m. same a (ground arith)),
  ),
)

pub Chain-write :
    (h : Heap) (a : ℕ) (n : Option Node) (p : Ptr) (xs : Cells)
    → Chain h p xs
    → has a xs ≡ false
    → Chain (write h a n) p xs
unfolding write
Chain-write h a n p xs c out = Chain-frame h _ p xs c (λ b m. ground arith)

pub has-Below : (n a : ℕ) (xs : Cells) → Below n xs → n ≤ a → has a xs ≡ false
has-Below n a [] b le = refl
has-Below n a (x ∷ xs) b le = ground (arith, has-Below n a xs)

pub Below-mono : (n m : ℕ) (xs : Cells) → n ≤ m → Below n xs → Below m xs
Below-mono n m [] le b = tt
Below-mono n m (x ∷ xs) le b = (omega arith, Below-mono n m xs le b.1)

-- find, has_key
pub is_some-find : (k : Text) (xs : Cells) → is_some (find k xs) ≡ has_key k xs
unfolding find
is_some-find k [] = refl
is_some-find k (x ∷ xs) = ground (arith, is_some-find k xs)

pub find-none : (k : Text) (xs : Cells) → has_key k xs ≡ false → find k xs ≡ none
unfolding find
find-none k [] h = refl
find-none k (x ∷ xs) h = ground (arith, find-none k xs)

pub has_key-congr : (k q : Text) (xs : Cells) → text_eq k q ≡ true → has_key k xs ≡ has_key q xs
has_key-congr k q [] e = refl
has_key-congr k q (x ∷ xs) e = rw (text_eq_congr k q x.key e, has_key-congr k q xs e) refl

-- the abstract operations
module _ (k q : Text) where
  pub find-assign :
      (v : Option Data) (xs : Cells)
      → has_key k xs ≡ true
      → find q (assign k v xs) ≡ (if text_eq q k then some (entry (some k) v) else find q xs)
  unfolding find assign
  find-assign v [] h = ground arith
  find-assign v (x ∷ xs) h = ground (
    arith,
    find-assign v xs,
    text_eq_congr k x.key q,
    text_eq_congr q k x.key,
    text_eq_symm q k,
    text_eq_symm q x.key,
  )

  pub has_key-assign : (v : Option Data) (xs : Cells) → has_key q (assign k v xs) ≡ has_key q xs
  unfolding assign
  has_key-assign v [] = refl
  has_key-assign v (x ∷ xs) =
      ground (
        arith,
        has_key-assign v xs,
        text_eq_congr k x.key q,
        text_eq_symm q k,
        text_eq_symm q x.key,
      )

  pub find-append :
      (a : ℕ) (v : Option Data) (xs : Cells)
      → has_key k xs ≡ false
      → find q (xs ++ cell a k v ∷ [])
        ≡ (if text_eq q k then some (entry (some k) v) else find q xs)
  unfolding find
  find-append a v [] h = refl
  find-append a v (x ∷ xs) h = ground (arith, find-append a v xs, text_eq_congr q k x.key)

  pub has_key-append :
      (a : ℕ) (v : Option Data) (xs : Cells)
      → has_key q (xs ++ cell a k v ∷ []) ≡ (has_key q xs || text_eq q k)
  has_key-append a v [] = ground arith
  has_key-append a v (x ∷ xs) = ground (arith, has_key-append a v xs)

  pub find-erase :
      (xs : Cells) → Distinct xs → find q (erase k xs) ≡ (if text_eq q k then none else find q xs)
  unfolding find erase
  find-erase [] d = ground arith
  find-erase (x ∷ xs) d = ground (
    arith,
    find-erase xs d.1,
    find-none x.key xs,
    find-none q xs,
    has_key-congr q x.key xs,
    text_eq_congr q k x.key,
    text_eq_congr k x.key q,
    text_eq_symm q x.key,
    text_eq_symm q k,
  )

  pub has_key-erase : (xs : Cells) → has_key q (erase k xs) ≡ true → has_key q xs ≡ true
  unfolding erase
  has_key-erase [] h = h
  has_key-erase (x ∷ xs) h = ground (arith, has_key-erase xs)
