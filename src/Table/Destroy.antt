-- ===== src/Table/Destroy.antt =====
-- `table_destroy` and `table_free_keys` of source/table.c.
use hash_map_storage_service.Prelude.{
  ℕ, zero, suc, ◌≡◌, refl, Option, none, some, List, [], ◌∷◌, length, arith, true,
}
use hash_map_storage_service.Prelude.Outcome.{Outcome, ret, fault, ◌>>=◌}
use hash_map_storage_service.Prelude.Text.{Text}
use hash_map_storage_service.NodeList.{Heap}
use hash_map_storage_service.NodeList.Cells.{Cells}
use hash_map_storage_service.NodeList.Destroy.{
  list_destroy, list_free_keys, free_keys_loop-closed, Without, list_destroy-Without,
}
use hash_map_storage_service.Table.{Lists, TableT, table_get_keys}
use hash_map_storage_service.Table.Rows.{Rows, IsTable}
use hash_map_storage_service.Table.Keys.{all_keys, table_get_keys-all_keys}

-- n rounds over the lists; a fault behind the array.
destroy_loop : ℕ → Lists → Outcome (List Heap)
destroy_loop zero ls = ret []
destroy_loop (suc n) [] = fault
destroy_loop (suc n) (l ∷ ls) = do h ← list_destroy l; hs ← destroy_loop n ls; ret (h ∷ hs)

-- The nodes that are left of each list.
unfoldable pub table_destroy : Option TableT → Outcome (List Heap)
unfolding destroy_loop
table_destroy none = ret []
table_destroy (some t) = destroy_loop t.count_lists t.list

-- The array that `table_get_keys` returns is closed.
unfoldable pub table_free_keys : List Text → Outcome (List Text)
table_free_keys keys = list_free_keys (some (record { written = keys; closed = true }))

-- Each heap is that of its list without the cells of its row.
abbrev pub Emptied : Lists → List Cells → List Heap → Type 0
Emptied [] [] [] = Unit
Emptied (some l ∷ ls) (xs ∷ xss) (h ∷ hs) = Without l.heap xs h × Emptied ls xss hs
Emptied ls xss hs = ⊥

destroy_loop-Emptied :
    (n : ℕ) (ls : Lists) (xss : List Cells)
    → Rows ls xss
    → length ls ≡ n
    → (hs : List Heap) × (destroy_loop n ls ≡ ret hs) × Emptied ls xss hs
unfolding destroy_loop
destroy_loop-Emptied zero [] [] r e = ([], refl, tt)
destroy_loop-Emptied (suc n) [] [] r e = absurd (omega arith)
destroy_loop-Emptied n [] (xs ∷ xss) r e = absurd r
destroy_loop-Emptied n (l ∷ ls) [] r e = absurd r
destroy_loop-Emptied n (none ∷ ls) (xs ∷ xss) r e = absurd r
destroy_loop-Emptied zero (some l ∷ ls) (xs ∷ xss) r e = absurd (omega arith)
destroy_loop-Emptied (suc n) (some l ∷ ls) (xs ∷ xss) (is, rest) e =
    let (h, run, w) = list_destroy-Without.0 l xs is in
    let (hs, runs, ws) = destroy_loop-Emptied n ls xss rest (omega arith) in
    (h ∷ hs, rw (run, runs) refl, (w, ws))

-- `table_destroy` of a sound table returns, whatever the tails of its lists are, and frees the
-- nodes of every list and no other; of NULL it does nothing.
pub table_destroy-Emptied :
    ((t : TableT) (xss : List Cells)
      → IsTable t xss
      → (hs : List Heap) × (table_destroy (some t) ≡ ret hs) × Emptied t.list xss hs)
    × (table_destroy none ≡ ret [])
unfolding table_destroy
table_destroy-Emptied =
    (λ t xss is. destroy_loop-Emptied t.count_lists t.list xss is.rows is.lists, refl)

-- `table_free_keys` of what `table_get_keys` returns for a sound table frees every key, also if
-- there is none.
pub table_free_keys-table_get_keys :
    (t : TableT) (xss : List Cells)
    → IsTable t xss
    → (table_get_keys (some t) >>= λ keys. table_free_keys keys) ≡ ret (all_keys xss)
unfolding table_free_keys list_free_keys
table_free_keys-table_get_keys t xss is =
    rw (table_get_keys-all_keys.0 t xss is).0 (free_keys_loop-closed (all_keys xss))
