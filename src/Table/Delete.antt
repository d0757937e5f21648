-- ===== src/Table/Delete.antt =====
-- `table_del` of source/table.c.
use hash_map_storage_service.Prelude.{
  ℕ, ◌+◌, ◌-◌, ◌≡◌, refl, ◌∙◌, ap, sym, none, some, List, [], length, set, true, false, arith, ◌||◌,
  inl, inr, if◌then◌else◌, Option-cases, ◌==◌, is_some,
}
use hash_map_storage_service.Prelude.Int.{pos, minus_one}
use hash_map_storage_service.Prelude.Outcome.{ret}
use hash_map_storage_service.Prelude.Text.{Text, text_eq, text_eq_refl}
use hash_map_storage_service.NodeList.Cells.{Cells, find, has_key, erase}
use hash_map_storage_service.NodeList.Frame.{find-erase, has_key-erase, is_some-find}
use hash_map_storage_service.NodeList.Get.{list_get-find}
use hash_map_storage_service.NodeList.Shape
use hash_map_storage_service.Table.{TableT, hash, table_del}
use hash_map_storage_service.Table.Rows.{IsTable, IsReady, row}
use hash_map_storage_service.Table.View.{view}
use hash_map_storage_service.Table.Write.{
  written, list_at-row, written-IsTable, view-written, view-here,
}
use hash_map_storage_service.Table.PutRow.{remove-Ready}
use hash_map_storage_service.Table.Write.{wide}
use hash_map_storage_service.Table.Rows.{total-set}

-- The table t' after a key that was there is deleted.
pub record Deleted (t : TableT) (xss : List Cells) (k : Text) (t' : TableT) (xss' : List Cells)
    : Type 0 where
  pub is_table : IsTable t' xss'
  pub reads : (q : Text) → view q xss' ≡ (if text_eq q k then none else view q xss)
  pub size : t'.size + 1 ≡ t.size

module _ (t : TableT) (xss : List Cells) (k : Text) (i : ℕ) (is : IsTable t xss)
    (at_i : hash k t.count_lists ≡ pos i) where
  nonzero : (t.count_lists == 0) ≡ false
  nonzero = let h = is.positive in ground arith

  -- A delete of a key that the abstract map has, in a list that is ready, returns 0. The map then
  -- has nothing at the key and is unchanged elsewhere, and the size falls by one.
  pub table_del-Deleted :
      IsReady t xss i
      → is_some (view k xss) ≡ true
      → (t' : TableT) × (xss' : List Cells) × (table_del (some t) (some k) ≡ ret (pos 0, some t'))
        × Deleted t xss k t' xss'
  unfolding table_del
  table_del-Deleted ready there =
      let (l, at_l, elem, is_list) = list_at-row t xss k i is at_i in
      let h : has_key k (row xss i) ≡ true =
        sym (ap is_some (view-here t xss k i is at_i) ∙ is_some-find k (row xss i)) ∙ there in
      let (l', removed, is', ready') = remove-Ready k l (row xss i) is_list h (ready l elem) in
      let shrunk = Shape.length-erase k (row xss i) h in
      let room = total-set xss i [] (wide t xss k i is at_i) in
      let count : t.size - 1 + length (row xss i) ≡ t.size + length (erase k (row xss i)) =
        omega (arith, is.counted) in
      let keys : (q : Text)
          → has_key q (erase k (row xss i)) ≡ true
          → (has_key q (row xss i) || text_eq q k) ≡ true =
        λ q m. ground (arith, has_key-erase k q (row xss i) m) in
      elim (Option-cases (find k (row xss i))) [
        | inl no_entry ↦ absurd (ground (arith, is_some-find k (row xss i)))
        | inr (e, found) ↦ (
          written t i l' (t.size - 1),
          set xss i (erase k (row xss i)),
          rw (nonzero, at_l, list_get-find l (row xss i) k is_list, found, removed, at_i) refl,
          record {
            is_table = written-IsTable t xss k i is at_i l' _ (t.size - 1) is' keys count;
            reads = λ q.
                view-written t xss k i is at_i l' _ (t.size - 1) is' keys count q
                  (λ ne. find-erase k q (row xss i) is_list.distinct ∙ rw ne refl)
                ∙ ap (λ o. if text_eq q k then o else view q xss)
                    (find-erase k k (row xss i) is_list.distinct ∙ rw (text_eq_refl k) refl);
            size = omega (arith, is.counted);
          },
        )
      ]

  -- A delete of a key that the abstract map does not have returns -1 and changes nothing.
  pub table_del-absent : view k xss ≡ none → table_del (some t) (some k) ≡ ret (minus_one, some t)
  unfolding table_del
  table_del-absent gone =
      let (l, at_l, elem, is_list) = list_at-row t xss k i is at_i in
      rw
        (
          nonzero,
          at_l,
          list_get-find l (row xss i) k is_list,
          sym (view-here t xss k i is at_i) ∙ gone,
        )
        refl
