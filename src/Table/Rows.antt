-- ===== src/Table/Rows.antt =====
-- What a table stands for: for each of its lists the cells of that list.
use hash_map_storage_service.Prelude.{
  ℕ, zero, suc, ◌+◌, ◌<◌, ◌≡◌, refl, ap, none, some, List, [], ◌∷◌, length, get_elem?, set, true,
  arith, ◌≢◌, ◌⊎◌,
}
use hash_map_storage_service.Prelude.Int.{pos}
use hash_map_storage_service.Prelude.Text.{Text}
use hash_map_storage_service.NodeList.{ListT}
use hash_map_storage_service.NodeList.Cells.{Cells, IsList, TailOk, has_key}
use hash_map_storage_service.Table.{Lists, TableT, hash}

abbrev pub row : List Cells → ℕ → Cells
row [] i = []
row (xs ∷ xss) zero = xs
row (xs ∷ xss) (suc i) = row xss i

-- Each list stands for its row.
abbrev pub Rows : Lists → List Cells → Type 0
Rows [] [] = Unit
Rows [] (xs ∷ xss) = ⊥
Rows (l ∷ ls) [] = ⊥
Rows (none ∷ ls) (xs ∷ xss) = ⊥
Rows (some l ∷ ls) (xs ∷ xss) = IsList l xs × Rows ls xss

abbrev pub total : List Cells → ℕ
total [] = 0
total (xs ∷ xss) = length xs + total xss

-- The lists of the table stand for the rows; a key is only in the row that it hashes to; the size
-- counts the cells.
pub record IsTable (t : TableT) (xss : List Cells) : Type 0 where
  pub rows : Rows t.list xss
  pub lists : length t.list ≡ t.count_lists
  pub positive : 0 < t.count_lists
  pub counted : t.size ≡ total xss
  pub placed : (i : ℕ) (k : Text) → has_key k (row xss i) ≡ true → hash k t.count_lists ≡ pos i

-- The list with index i has a sound tail, or is empty.
abbrev pub IsReady : TableT → List Cells → ℕ → Type 0
IsReady t xss i =
    (l : ListT) → get_elem? t.list i ≡ some (some l) → TailOk l.tail (row xss i) ⊎ (row xss i ≡ [])

pub Rows-at :
    (ls : Lists) (xss : List Cells) (i : ℕ)
    → Rows ls xss
    → i < length ls
    → (l : ListT) × (get_elem? ls i ≡ some (some l)) × IsList l (row xss i)
Rows-at [] [] i r lt = absurd (omega arith)
Rows-at [] (xs ∷ xss) i r lt = absurd r
Rows-at (l ∷ ls) [] i r lt = absurd r
Rows-at (none ∷ ls) (xs ∷ xss) i r lt = absurd r
Rows-at (some l ∷ ls) (xs ∷ xss) zero r lt = (l, refl, r.0)
Rows-at (some l ∷ ls) (xs ∷ xss) (suc i) r lt = Rows-at ls xss i r.1 (omega arith)

pub Rows-set :
    (ls : Lists) (xss : List Cells) (i : ℕ) (l : ListT) (xs : Cells)
    → Rows ls xss
    → IsList l xs
    → Rows (set ls i (some l)) (set xss i xs)
Rows-set [] [] i l' ys r is = tt
Rows-set [] (xs ∷ xss) i l' ys r is = absurd r
Rows-set (l ∷ ls) [] i l' ys r is = absurd r
Rows-set (none ∷ ls) (xs ∷ xss) i l' ys r is = absurd r
Rows-set (some l ∷ ls) (xs ∷ xss) zero l' ys r is = (is, r.1)
Rows-set (some l ∷ ls) (xs ∷ xss) (suc i) l' ys r is = (r.0, Rows-set ls xss i l' ys r.1 is)

pub length-Rows : (ls : Lists) (xss : List Cells) → Rows ls xss → length ls ≡ length xss
length-Rows [] [] r = refl
length-Rows [] (xs ∷ xss) r = absurd r
length-Rows (l ∷ ls) [] r = absurd r
length-Rows (none ∷ ls) (xs ∷ xss) r = absurd r
length-Rows (some l ∷ ls) (xs ∷ xss) r = ap suc (length-Rows ls xss r.1)

pub total-set :
    (xss : List Cells) (i : ℕ) (ys : Cells)
    → i < length xss
    → total (set xss i ys) + length (row xss i) ≡ total xss + length ys
total-set [] i ys lt = absurd (omega arith)
total-set (xs ∷ xss) zero ys lt = omega arith
total-set (xs ∷ xss) (suc i) ys lt = omega (arith, total-set xss i ys (omega arith))

pub row-set_self :
    (xss : List Cells) (i : ℕ) (ys : Cells) → i < length xss → row (set xss i ys) i ≡ ys
row-set_self [] i ys lt = absurd (omega arith)
row-set_self (xs ∷ xss) zero ys lt = refl
row-set_self (xs ∷ xss) (suc i) ys lt = row-set_self xss i ys (omega arith)

pub row-set_ne :
    (xss : List Cells) (i j : ℕ) (ys : Cells) → i ≢ j → row (set xss i ys) j ≡ row xss j
row-set_ne [] i j ys ne = refl
row-set_ne (xs ∷ xss) zero zero ys ne = absurd (ne refl)
row-set_ne (xs ∷ xss) zero (suc j) ys ne = refl
row-set_ne (xs ∷ xss) (suc i) zero ys ne = refl
row-set_ne (xs ∷ xss) (suc i) (suc j) ys ne = row-set_ne xss i j ys (λ e. ne (ap suc e))
