-- ===== src/Tests/ListTests.antt =====
-- Lists of source/list.c with one and two nodes.
use hash_map_storage_service.Prelude.{
  ◌≡◌, refl, none, some, [], ◌∷◌, inl, length, arith, true, false, ◌==◌, if◌then◌else◌,
}
use hash_map_storage_service.Prelude.Int.{pos}
use hash_map_storage_service.Prelude.Outcome.{ret}
use hash_map_storage_service.Prelude.Text.{Text, text_eq}
use hash_map_storage_service.Entry.{entry}
use hash_map_storage_service.NodeList.{Heap, ListT, node, list_remove}
use hash_map_storage_service.NodeList.Cells.{Cells, cell, IsList, TailOk, has_key, erase}
use hash_map_storage_service.NodeList.Remove.{list_remove-erase}

abbrev pub a : Text
a = 97 ∷ []

abbrev pub b : Text
b = 98 ∷ []

abbrev pub c : Text
c = 99 ∷ []

-- two nodes, the second of which is the tail
abbrev pub pair_heap : Heap
pair_heap i =
    if i == 0
    then some (node (entry (some a) none) (some 1))
    else if i == 1
    then some (node (entry (some b) none) none)
    else none

abbrev pub two_nodes : ListT
two_nodes = record { heap = pair_heap; fresh = 2; head = some 0; tail = some 1; size = 2 }

abbrev pub two_cells : Cells
two_cells = cell 0 a none ∷ cell 1 b none ∷ []

pub two_nodes-IsList : IsList two_nodes two_cells
unfolding text_eq
two_nodes-IsList = record {
  chain = (refl, (some 1, refl, refl, (refl, (none, refl, refl, refl))));
  count = refl;
  below = omega arith;
  room = omega arith;
  distinct = (refl, (refl, tt));
}

-- one node, which is the tail
abbrev pub one_node : ListT
one_node = record {
  heap = λ i. if i == 1 then some (node (entry (some b) none) none) else none;
  fresh = 2;
  head = some 1;
  tail = some 1;
  size = 1;
}

pub one_node-IsList : IsList one_node (cell 1 b none ∷ [])
one_node-IsList = record {
  chain = (refl, (none, refl, refl, refl));
  count = refl;
  below = omega arith;
  room = omega arith;
  distinct = (refl, tt);
}

b_there : has_key b two_cells ≡ true
unfolding text_eq
b_there = refl

c_absent : has_key c two_cells ≡ false
unfolding text_eq
c_absent = refl

list_remove-erase_example :
    (m : ListT) × (list_remove (some two_nodes) (some b) ≡ ret (pos 0, some m))
    × IsList m (erase b two_cells)
    × ((length two_cells ≡ 1 → two_nodes.tail ≡ none) → TailOk m.tail (erase b two_cells))
list_remove-erase_example =
    list_remove-erase b two_nodes two_cells two_nodes-IsList (inl refl) b_there

pub a_is_not_c : text_eq a c ≡ false
unfolding text_eq
a_is_not_c = refl
