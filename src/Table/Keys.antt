-- ===== src/Table/Keys.antt =====
-- `table_get_keys` of source/table.c.
use mathlib.Core.List.{append-nil, append_assoc}
use hash_map_storage_service.Prelude.{
  ℕ, zero, suc, ◌+◌, ◌≤◌, ◌≡◌, refl, ◌∙◌, ap, sym, none, some, List, [], ◌∷◌, ◌++◌, map, length,
  length-append, lt→ltb, arith,
}
use hash_map_storage_service.Prelude.Outcome.{ret, fault}
use hash_map_storage_service.Prelude.Text.{Text}
use hash_map_storage_service.NodeList.{ListT, KeyArray, list_get_keys, list_size}
use hash_map_storage_service.NodeList.Cells.{Cells, IsList}
use hash_map_storage_service.NodeList.Keys.{list_get_keys-map}
use hash_map_storage_service.Table.{Lists, TableT, copy_keys, keys_loop, table_get_keys}
use hash_map_storage_service.Table.Rows.{Rows, IsTable, total}

abbrev pub keys_of : Cells → List Text
keys_of xs = map (λ c. c.key) xs

-- The keys of all rows, in the order of the rows.
abbrev pub all_keys : List Cells → List Text
all_keys [] = []
all_keys (xs ∷ xss) = keys_of xs ++ all_keys xss

length-keys_of : (xs : Cells) → length (keys_of xs) ≡ length xs
length-keys_of [] = refl
length-keys_of (x ∷ xs) = ap suc (length-keys_of xs)

length-all_keys : (xss : List Cells) → length (all_keys xss) ≡ total xss
length-all_keys [] = refl
length-all_keys (xs ∷ xss) =
    length-append (keys_of xs) (all_keys xss)
    ∙ omega (arith, length-keys_of xs, length-all_keys xss)

copy_keys-append :
    (room n : ℕ) (keys out : List Text)
    → length keys ≡ n
    → length out + n ≤ room
    → copy_keys room n keys out ≡ ret (out ++ keys)
unfolding copy_keys
copy_keys-append room zero [] out e fits = ap ret (sym (append-nil out))
copy_keys-append room zero (k ∷ keys) out e fits = absurd (omega arith)
copy_keys-append room (suc n) [] out e fits = absurd (omega arith)
copy_keys-append room (suc n) (k ∷ keys) out e fits = rw (lt→ltb (length out) room (omega arith)) (
    copy_keys-append room n keys (out ++ k ∷ []) (omega arith)
      (omega (arith, length-append out (k ∷ [])))
    ∙ ap ret (append_assoc out (k ∷ []) keys))

written_keys :
    (l : ListT) (xs : Cells)
    → IsList l xs
    → (a : KeyArray) × (list_get_keys (some l) ≡ ret a) × (a.written ≡ keys_of xs)
written_keys l [] is = (_, (list_get_keys-map l [] is).0 refl, refl)
written_keys l (x ∷ xs) is =
    (_, (list_get_keys-map l (x ∷ xs) is).1 (λ e. absurd (omega (arith, ap length e))), refl)

keys_loop-append :
    (room n : ℕ) (ls : Lists) (xss : List Cells) (out : List Text)
    → Rows ls xss
    → length ls ≡ n
    → length out + total xss ≤ room
    → keys_loop room n ls out ≡ ret (out ++ all_keys xss)
unfolding keys_loop list_size
keys_loop-append room zero [] [] out r e fits = ap ret (sym (append-nil out))
keys_loop-append room (suc n) [] [] out r e fits = absurd (omega arith)
keys_loop-append room n [] (xs ∷ xss) out r e fits = absurd r
keys_loop-append room n (l ∷ ls) [] out r e fits = absurd r
keys_loop-append room n (none ∷ ls) (xs ∷ xss) out r e fits = absurd r
keys_loop-append room zero (some l ∷ ls) (xs ∷ xss) out r e fits = absurd (omega arith)
keys_loop-append room (suc n) (some l ∷ ls) (xs ∷ xss) out r e fits =
    let (a, run, is) = written_keys l xs r.0 in
    let copied : copy_keys room l.size a.written out ≡ ret (out ++ keys_of xs) = rw is (
      copy_keys-append room l.size (keys_of xs) out (length-keys_of xs ∙ sym (r.0).count)
        (omega (arith, (r.0).count))) in
    rw (run, copied)
      (keys_loop-append room n ls xss (out ++ keys_of xs) r.1 (omega arith)
          (omega (arith, length-append out (keys_of xs), length-keys_of xs))
        ∙ ap ret (append_assoc out (keys_of xs) (all_keys xss)))

-- `table_get_keys` returns the keys of all the lists, as many as `table_size` says, and writes
-- within the array that it allocates; on a NULL table it is a fault.
pub table_get_keys-all_keys :
    ((t : TableT) (xss : List Cells)
      → IsTable t xss
      → (table_get_keys (some t) ≡ ret (all_keys xss)) × (length (all_keys xss) ≡ t.size))
    × (table_get_keys none ≡ fault)
unfolding table_get_keys
table_get_keys-all_keys = (λ t xss is. (run t xss is, length-all_keys xss ∙ sym is.counted), refl)
  where
    run :
        (t : TableT) (xss : List Cells)
        → IsTable t xss
        → table_get_keys (some t) ≡ ret (all_keys xss)
    run t xss is =
        rw
          (keys_loop-append (t.size + 1) t.count_lists t.list xss [] is.rows is.lists
            (omega (arith, is.counted)))
          (rw
            (lt→ltb (length (all_keys xss)) (t.size + 1)
              (omega (arith, is.counted, length-all_keys xss)))
            refl)
