-- ===== src/Tests/TableTests.antt =====
-- Tables of source/table.c with one list.
use hash_map_storage_service.Prelude.{
  ℕ, zero, suc, ◌<◌, ◌≡◌, refl, none, some, List, [], ◌∷◌, inl, inr, arith, true, false, is_some,
  Bool-cases, if◌then◌else◌, ◌||◌, replicate,
}
use hash_map_storage_service.Prelude.Int.{pos, negsuc, add_int, rem}
use hash_map_storage_service.Prelude.Outcome.{ret, fault, ◌>>=◌}
use hash_map_storage_service.Prelude.Text.{Text, text_eq, eq_of_text_eq}
use hash_map_storage_service.Data.{Block, data_of}
use hash_map_storage_service.Data.Dup.{dup_of}
use hash_map_storage_service.NodeList.Cells.{Cells, cell, find, has_key}
use hash_map_storage_service.Table.{TableT, hash, table_put, table_get, table_del}
use hash_map_storage_service.Table.Dangling.{table_del-put-put_fault}
use hash_map_storage_service.Table.Delete.{Deleted, table_del-Deleted}
use hash_map_storage_service.Table.Errors.{negative_hash}
use hash_map_storage_service.Table.Hash.{hash-ascii}
use hash_map_storage_service.Table.Put.{Stored, table_put-Stored, table_get-table_put}
use hash_map_storage_service.Table.Rows.{IsTable, IsReady, row}
use hash_map_storage_service.Table.View.{view}
use hash_map_storage_service.Tests.ListTests.{
  a, b, c, two_nodes, two_cells, two_nodes-IsList, one_node, one_node-IsList, a_is_not_c,
}

-- One list with the keys a and b; its values are NULL.
abbrev pub table : TableT
table = record { list = some two_nodes ∷ []; size = 2; count_lists = 1 }

abbrev pub rows : List Cells
rows = two_cells ∷ []

pub hashes : (hash a 1 ≡ pos 0) × (hash b 1 ≡ pos 0) × (hash c 1 ≡ pos 0)
unfolding hash rem add_int
hashes = (refl, refl, refl)

pub table-IsTable : IsTable table rows
table-IsTable = record {
  rows = (two_nodes-IsList, tt);
  lists = refl;
  positive = omega arith;
  counted = refl;
  placed = placed;
}
  where
    a_or_b : (k : Text) → (text_eq k a || (text_eq k b || false)) ≡ true → hash k 1 ≡ pos 0
    a_or_b k h = elim (Bool-cases (text_eq k a)) [
      | inl e ↦ rw (eq_of_text_eq k a e) hashes.0
      | inr ne ↦ rw (eq_of_text_eq k b (ground arith)) hashes.1
    ]

    placed : (i : ℕ) (k : Text) → has_key k (row rows i) ≡ true → hash k 1 ≡ pos i
    placed zero k h = a_or_b k h
    placed (suc zero) k h = ground arith
    placed (suc (suc i)) k h = ground arith

pub table-IsReady : IsReady table rows 0
table-IsReady l e = inl (ground arith)

abbrev pub value : Block
value = some 120 ∷ some 121 ∷ []

table_put-Stored_example :
    (t' : TableT) × (xss' : List Cells) × (table_put
        (some table)
        (some b)
        (some (data_of (pos 2) (some value)))
      ≡ ret (pos 0, some t'))
    × Stored table rows b (dup_of 2 value) t' xss'
table_put-Stored_example =
    table_put-Stored table rows b 0 table-IsTable hashes.1 table-IsReady 2 value (omega arith)
      (omega arith) (omega arith)

table_get-table_put_example :
    (table_put (some table) (some c) (some (data_of (pos 2) (some value))) >>= λ r.
    table_get r.1 (some a))
    ≡ (if text_eq a c then ret (some (dup_of 2 value)) else table_get (some table) (some a))
table_get-table_put_example =
    table_get-table_put table rows c 0 table-IsTable hashes.2 table-IsReady 2 value (omega arith)
      (omega arith) (omega arith) a

pub b_there : is_some (view b rows) ≡ true
unfolding view find text_eq
b_there = refl

c_absent : view c rows ≡ none
unfolding view find text_eq
c_absent = refl

table_del-Deleted_example :
    (t' : TableT) × (xss' : List Cells) × (table_del (some table) (some b) ≡ ret (pos 0, some t'))
    × Deleted table rows b t' xss'
table_del-Deleted_example =
    table_del-Deleted table rows b 0 table-IsTable hashes.1 table-IsReady b_there

-- the list of this table has one node, which is its tail
abbrev shrunk : TableT
shrunk = record { list = some one_node ∷ []; size = 1; count_lists = 1 }

table_del-put-put_fault_example :
    (table_del (some shrunk) (some b) >>= λ r.
    table_put r.1 (some c) (some (data_of (pos 2) (some value))) >>= λ r'.
    table_put r'.1 (some a) (some (data_of (pos 1) (some value))))
    ≡ fault
table_del-put-put_fault_example =
    table_del-put-put_fault shrunk 0 one_node (cell 1 b none) c a 2 1 value value (omega arith) refl
      one_node-IsList refl hashes.1 hashes.2 hashes.0 a_is_not_c (omega arith) (omega arith)

-- the UTF-8 bytes of a letter with a tilde, in a table of five lists
abbrev a_tilde : Text
a_tilde = 195 ∷ 163 ∷ []

abbrev five_lists : TableT
five_lists = record { list = replicate 5 (some two_nodes); size = 10; count_lists = 5 }

hash-a_tilde : hash a_tilde 5 ≡ negsuc 3
unfolding hash rem add_int
hash-a_tilde = refl

negative_hash_example :
    (table_put (some five_lists) (some a_tilde) (some (data_of (pos 2) (some value))) ≡ fault)
    × (table_del (some five_lists) (some a_tilde) ≡ fault)
negative_hash_example =
    negative_hash five_lists a_tilde 2 value (omega arith) 3 hash-a_tilde (omega arith)
      (omega arith) (omega arith)

hash-ascii_example : (i : ℕ) × (hash c 7 ≡ pos i) × (i < 7)
hash-ascii_example = hash-ascii c 7 (omega arith) (omega arith) (omega arith)
