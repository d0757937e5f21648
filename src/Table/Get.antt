-- ===== src/Table/Get.antt =====
-- `table_get`, `table_size` and `table_create` of source/table.c.
use hash_map_storage_service.Prelude.{
  ℕ, zero, suc, ◌<◌, ◌≡◌, refl, Option, none, some, List, [], ◌∷◌, length, false, arith,
  Option-cases, inl, inr, ◌==◌,
}
use hash_map_storage_service.Prelude.Outcome.{Outcome, ret}
use hash_map_storage_service.Prelude.Text.{Text}
use hash_map_storage_service.Data.{Data, data_dup}
use hash_map_storage_service.Entry.{Entry}
use hash_map_storage_service.NodeList.Get.{list_get-find}
use hash_map_storage_service.NodeList.Cells.{Cells, find}
use hash_map_storage_service.Table.{Lists, TableT, get_loop, table_get}
use hash_map_storage_service.Table.Rows.{Rows, IsTable}
use hash_map_storage_service.Table.View.{view}

-- A copy of the value of an entry that was found; NULL otherwise.
unfoldable pub dup_found : Option Entry → Outcome (Option Data)
dup_found none = ret none
dup_found (some e) = data_dup e.value

get_loop-view :
    (k : Text) (ls : Lists) (xss : List Cells) (n : ℕ)
    → Rows ls xss
    → length ls ≡ n
    → get_loop k n ls ≡ dup_found (view k xss)
unfolding get_loop view dup_found
get_loop-view k [] [] n r e = rw (← e) refl
get_loop-view k [] (xs ∷ xss) n r e = absurd r
get_loop-view k (l ∷ ls) [] n r e = absurd r
get_loop-view k (none ∷ ls) (xs ∷ xss) n r e = absurd r
get_loop-view k (some l ∷ ls) (xs ∷ xss) zero r e = absurd (omega arith)
get_loop-view k (some l ∷ ls) (xs ∷ xss) (suc n) r e =
    rw (list_get-find l xs k r.0) (elim (Option-cases (find k xs)) [
      | inl gone ↦ rw gone (get_loop-view k ls xss n r.1 (omega arith))
      | inr (e', found) ↦ rw found refl
    ])

-- `table_get` scans the lists in order, and returns a copy of the value that the abstract map has
-- for the key, whatever the key hashes to.
pub table_get-view :
    (t : TableT) (xss : List Cells) (k : Text)
    → IsTable t xss
    → table_get (some t) (some k) ≡ dup_found (view k xss)
unfolding table_get
table_get-view t xss k is =
    rw (nonzero t.count_lists is.positive)
      (get_loop-view k t.list xss t.count_lists is.rows is.lists)
  where
    nonzero : (n : ℕ) → 0 < n → (n == 0) ≡ false
    nonzero n h = ground arith
