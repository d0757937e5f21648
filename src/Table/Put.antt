-- ===== src/Table/Put.antt =====
-- `table_put` of source/table.c.
use hash_map_storage_service.Prelude.{
  ℕ, ◌+◌, ◌<◌, ◌≤◌, ◌≡◌, refl, ◌∙◌, ap, Option, some, List, length, set, true, false, arith, inl,
  inr, if◌then◌else◌, Bool-cases, Option-cases, ◌==◌, is_some,
}
use hash_map_storage_service.Prelude.Int.{ℤ, pos}
use hash_map_storage_service.Prelude.Outcome.{Outcome, ret, ◌>>=◌}
use hash_map_storage_service.Prelude.Text.{Text, text_eq}
use hash_map_storage_service.Data.{Block, Data, data_of}
use hash_map_storage_service.Data.Dup.{dup_of, data_dup-eq, data_dup-dup_of}
use hash_map_storage_service.Entry.{Entry, entry, entry_create}
use hash_map_storage_service.NodeList.{ListT}
use hash_map_storage_service.NodeList.Cells.{Cells, IsList, find, has_key, erase}
use hash_map_storage_service.NodeList.Frame.{is_some-find, find-none}
use hash_map_storage_service.NodeList.Get.{list_get-find}
use hash_map_storage_service.Table.{TableT, hash, put_entry, store_list, table_put, table_get}
use hash_map_storage_service.Table.Get.{dup_found, table_get-view}
use hash_map_storage_service.Table.Rows.{IsTable, IsReady, row}
use hash_map_storage_service.Table.View.{view}
use hash_map_storage_service.Table.Write.{
  written, list_at-row, written-IsTable, view-written, view-here,
}
use hash_map_storage_service.Table.PutRow.{
  PutRow, add-Ready, remove-Ready, snoc-PutRow, erase-snoc-PutRow, has_key-erase_self,
}

module _ (t : TableT) (xss : List Cells) (k : Text) (i : ℕ) (is : IsTable t xss)
    (at_i : hash k t.count_lists ≡ pos i) (ready : IsReady t xss i) (d : Data) where
  abbrev new_entry : Entry
  new_entry = entry (some k) (some d)

  -- The list m, its cells and the size that a put leaves.
  record OutcomeOfPut (r : Outcome (ℤ × Option TableT)) : Type 0 where
    m : ListT
    ys : Cells
    s : ℕ
    run : r ≡ ret (pos 0, some (written t i m s))
    is_list : IsList m ys
    put_row : PutRow k (some d) (row xss i) ys
    size : s ≡ t.size + (if has_key k (row xss i) then 0 else 1)

  put_entry-present : has_key k (row xss i) ≡ true → OutcomeOfPut (put_entry t k (some new_entry))
  unfolding put_entry store_list
  put_entry-present h =
      let (l, at_l, elem, is_list) = list_at-row t xss k i is at_i in
      let (l', removed, is', ready') = remove-Ready k l (row xss i) is_list h (ready l elem) in
      let gone = has_key-erase_self k (row xss i) is_list.distinct in
      let (l'', a) = add-Ready k (some d) l' (erase k (row xss i)) is' gone ready' in
      elim (Option-cases (find k (row xss i))) [
        | inl no_entry ↦ absurd (ground (arith, is_some-find k (row xss i)))
        | inr (e, found) ↦ record {
          m = l'';
          ys = _;
          s = t.size;
          run =
              rw (at_l, list_get-find l (row xss i) k is_list, found, removed, a.added, at_i) refl;
          is_list = a.is_list;
          put_row = erase-snoc-PutRow k (some d) l'.fresh (row xss i) is_list.distinct h;
          size = rw h (omega arith);
        }
      ]

  put_entry-absent : has_key k (row xss i) ≡ false → OutcomeOfPut (put_entry t k (some new_entry))
  unfolding put_entry store_list
  put_entry-absent h =
      let (l, at_l, elem, is_list) = list_at-row t xss k i is at_i in
      let (l', a) = add-Ready k (some d) l (row xss i) is_list h (ready l elem) in
      record {
        m = l';
        ys = _;
        s = t.size + 1;
        run =
            rw
              (
                at_l,
                list_get-find l (row xss i) k is_list,
                find-none k (row xss i) h,
                a.added,
                at_i,
              )
              refl;
        is_list = a.is_list;
        put_row = snoc-PutRow k (some d) l.fresh (row xss i) h;
        size = rw h (omega arith);
      }

  put_entry_lem : OutcomeOfPut (put_entry t k (some new_entry))
  put_entry_lem = elim (Bool-cases (has_key k (row xss i))) [
    | inl h ↦ put_entry-present h
    | inr h ↦ put_entry-absent h
  ]

-- The table t' after a put of d under k into a table with the rows xss.
pub record Stored (t : TableT) (xss : List Cells) (k : Text) (d : Data) (t' : TableT)
    (xss' : List Cells) : Type 0 where
  pub is_table : IsTable t' xss'
  pub reads :
      (q : Text)
      → view q xss' ≡ (if text_eq q k then some (entry (some k) (some d)) else view q xss)
  pub size : t'.size ≡ t.size + (if is_some (view k xss) then 0 else 1)

module _ (t : TableT) (xss : List Cells) (k : Text) (i : ℕ) (is : IsTable t xss)
    (at_i : hash k t.count_lists ≡ pos i) (ready : IsReady t xss i) (n : ℕ) (src : Block)
    (positive : 0 < n) (small : n ≤ 16) (wide : n ≤ length src) where
  -- A put of a value of 1 to 16 bytes under a key whose index is not negative, into a list that
  -- is ready, returns 0. The abstract map then has a copy of the value at the key and is unchanged
  -- at every other key, and the size grows by one exactly if the key is new.
  pub table_put-Stored :
      (t' : TableT) × (xss' : List Cells) × (table_put
          (some t)
          (some k)
          (some (data_of (pos n) (some src)))
        ≡ ret (pos 0, some t'))
      × Stored t xss k (dup_of n src) t' xss'
  unfolding table_put entry_create
  table_put-Stored =
      let p = put_entry_lem t xss k i is at_i ready (dup_of n src) in
      let old : is_some (view k xss) ≡ has_key k (row xss i) =
        ap is_some (view-here t xss k i is at_i) ∙ is_some-find k (row xss i) in
      let count : p.s + length (row xss i) ≡ t.size + length p.ys =
        omega (arith, p.size, p.put_row.size) in
      (
        written t i p.m p.s,
        set xss i p.ys,
        rw (nonzero t.count_lists is.positive, data_dup-eq n src positive small wide) p.run,
        record {
          is_table = written-IsTable t xss k i is at_i p.m p.ys p.s p.is_list p.put_row.keys count;
          reads = λ q. rw (← p.put_row.found) (
              view-written t xss k i is at_i p.m p.ys p.s p.is_list p.put_row.keys count q
                (p.put_row.others q));
          size = rw old p.size;
        },
      )
    where
      nonzero : (n : ℕ) → 0 < n → (n == 0) ≡ false
      nonzero n h = ground arith

  -- After such a put, a get of the key returns a copy of the value, and a get of any other key
  -- returns what it did before.
  pub table_get-table_put :
      (q : Text)
      → (table_put (some t) (some k) (some (data_of (pos n) (some src))) >>= λ r.
          table_get r.1 (some q))
        ≡ (if text_eq q k then ret (some (dup_of n src)) else table_get (some t) (some q))
  unfolding dup_found
  table_get-table_put q =
      let (t', xss', run, s) = table_put-Stored in
      rw (run, table_get-view t' xss' q s.is_table, s.reads q, table_get-view t xss q is)
        (elim (Bool-cases (text_eq q k)) [
          | inl e ↦ rw e (data_dup-dup_of n src positive small wide)
          | inr ne ↦ rw ne refl
        ])
