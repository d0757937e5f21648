-- ===== src/Table/Create.antt =====
-- `table_create` and `table_size` of source/table.c.
use hash_map_storage_service.Prelude.{
  ℕ, zero, suc, ◌<◌, ◌≡◌, refl, sym, none, some, List, [], true, false, arith, inr, replicate,
  length-replicate, get_elem?,
}
use hash_map_storage_service.Prelude.Int.{ℤ, pos, leb_ℤ}
use hash_map_storage_service.Prelude.Text.{Text}
use hash_map_storage_service.NodeList.{list_create}
use hash_map_storage_service.NodeList.Keys.{empty_list-IsList}
use hash_map_storage_service.NodeList.Cells.{Cells, find}
use hash_map_storage_service.Table.{TableT, table_create, table_size}
use hash_map_storage_service.Table.Rows.{Rows, IsTable, IsReady, row, total}
use hash_map_storage_service.Table.View.{view}

abbrev pub empty_rows : ℕ → List Cells
empty_rows n = replicate n []

Rows-replicate : (n : ℕ) → Rows (replicate n list_create) (empty_rows n)
unfolding list_create
Rows-replicate zero = tt
Rows-replicate (suc n) = (empty_list-IsList, Rows-replicate n)

pub row-empty : (n i : ℕ) → row (empty_rows n) i ≡ []
row-empty zero i = refl
row-empty (suc n) zero = refl
row-empty (suc n) (suc i) = row-empty n i

total-empty : (n : ℕ) → total (empty_rows n) ≡ 0
total-empty zero = refl
total-empty (suc n) = omega (arith, total-empty n)

view-empty : (k : Text) (n : ℕ) → view k (empty_rows n) ≡ none
unfolding view find
view-empty k zero = refl
view-empty k (suc n) = view-empty k n

pub get_elem?-replicate {ℓ} :
    {A : Type ℓ} (n i : ℕ) (a b : A) → get_elem? (replicate n a) i ≡ some b → b ≡ a
get_elem?-replicate zero i a b e = ground arith
get_elem?-replicate (suc n) zero a b e = ground arith
get_elem?-replicate (suc n) (suc i) a b e = get_elem?-replicate n i a b e

-- What `table_create` returns for a positive number of lists.
abbrev pub new_table : ℕ → TableT
new_table n = record { list = replicate n list_create; size = 0; count_lists = n }

-- `table_create` returns NULL for a number of lists that is not positive. For a positive number n
-- it returns a table of n empty lists that is sound, holds no key, has size 0, and whose lists are
-- all ready for a put.
pub table_create_lem :
    ((n : ℤ) → leb_ℤ n (pos 0) ≡ true → table_create n ≡ none)
    × ((n : ℕ)
        → 0 < n
        → (table_create (pos n) ≡ some (new_table n))
          × (IsTable (new_table n) (empty_rows n)
              × (((k : Text) → view k (empty_rows n) ≡ none)
                  × ((table_size (some (new_table n)) ≡ pos 0)
                      × ((i : ℕ) → IsReady (new_table n) (empty_rows n) i)))))
unfolding table_create table_size
table_create_lem = (
  λ n h. ground arith,
  λ n h. (
    ground arith,
    (
      record {
        rows = Rows-replicate n;
        lists = length-replicate n list_create;
        positive = h;
        counted = sym (total-empty n);
        placed = λ i k e. absurd (impossible (rw (row-empty n i) at e));
      },
      (λ k. view-empty k n, (refl, λ i l e. inr (row-empty n i))),
    ),
  ),
)
  where
    impossible : false ≡ true → ⊥
    impossible e = cc
