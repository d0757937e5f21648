-- ===== src/Table/Write.antt =====
-- A write of one list of a table, seen in its rows and in the abstract map.
use hash_map_storage_service.Prelude.{
  ℕ, ◌+◌, ◌<◌, ◌≡◌, refl, ◌∙◌, ap, sym, some, List, length, set, true, false, arith, ◌||◌, inl, inr,
  if◌then◌else◌, get_elem?, length-set, Bool-cases, ==_iff, ◌==◌,
}
use hash_map_storage_service.Prelude.Int.{pos}
use hash_map_storage_service.Prelude.Outcome.{ret}
use hash_map_storage_service.Prelude.Text.{Text, text_eq, eq_of_text_eq}
use hash_map_storage_service.NodeList.{ListT}
use hash_map_storage_service.NodeList.Cells.{Cells, IsList, find, has_key}
use hash_map_storage_service.Table.{TableT, hash, list_at}
use hash_map_storage_service.Table.Hash.{hash-lt}
use hash_map_storage_service.Table.Rows.{
  IsTable, row, Rows-at, Rows-set, length-Rows, total-set, row-set_self, row-set_ne,
}
use hash_map_storage_service.Table.View.{view, view-row, view-set_same}

pub pos_injective : (i j : ℕ) → pos i ≡ pos j → i ≡ j
pos_injective i j e = ground arith

-- The table t with the list i and the size replaced.
abbrev pub written : TableT → ℕ → ListT → ℕ → TableT
written t i l s = record t { list = set t.list i (some l); size = s }

module _ (t : TableT) (xss : List Cells) (k : Text) (i : ℕ) (is : IsTable t xss)
    (at_i : hash k t.count_lists ≡ pos i) where
  pub in_range : i < length t.list
  in_range = rw is.lists (hash-lt k t.count_lists i is.positive at_i)

  -- The list that the key hashes to, and what it stands for.
  pub list_at-row :
      (l : ListT) × (list_at t.list (hash k t.count_lists) ≡ ret (some l))
      × (get_elem? t.list i ≡ some (some l))
      × IsList l (row xss i)
  unfolding list_at
  list_at-row =
      let (l, at_l, is_list) = Rows-at t.list xss i is.rows in_range in
      (l, rw at_i (rw at_l refl), at_l, is_list)

  pub wide : i < length xss
  wide = rw (← length-Rows t.list xss is.rows) in_range

  only_here : (j : ℕ) → has_key k (row xss j) ≡ true → j ≡ i
  only_here j h = pos_injective j i (sym (is.placed j k h) ∙ at_i)

  pub view-here : view k xss ≡ find k (row xss i)
  view-here = view-row k xss i only_here

  module _ (l : ListT) (ys : Cells) (s : ℕ) (is_list : IsList l ys)
      (keys : (q : Text) → has_key q ys ≡ true → (has_key q (row xss i) || text_eq q k) ≡ true)
      (count : s + length (row xss i) ≡ t.size + length ys) where
    pub written-IsTable : IsTable (written t i l s) (set xss i ys)
    written-IsTable = record {
      rows = Rows-set t.list xss i l ys is.rows is_list;
      lists = length-set t.list i (some l) ∙ is.lists;
      positive = is.positive;
      counted = omega (arith, is.counted, total-set xss i ys wide);
      placed = placed';
    }
      where
        here : (q : Text) → has_key q ys ≡ true → hash q t.count_lists ≡ pos i
        here q h = elim (Bool-cases (text_eq q k)) [
          | inl same ↦ rw (eq_of_text_eq q k same) at_i
          | inr other ↦ is.placed i q (ground (arith, keys q h))
        ]

        placed' :
            (j : ℕ) (q : Text)
            → has_key q (row (set xss i ys) j) ≡ true
            → hash q t.count_lists ≡ pos j
        placed' j q h = elim (Bool-cases (i == j)) [
          | inl e ↦
              let same : i ≡ j = (==_iff i j).0 e in
              rw (← same) (here q (rw (← same, row-set_self xss i ys wide) at h))
          | inr ne ↦ is.placed j q (rw (row-set_ne xss i j ys (λ e. absurd (differ i j ne e))) at h)
        ]
          where
            differ : (i j : ℕ) → (i == j) ≡ false → i ≡ j → ⊥
            differ i j ne e = ground arith

    -- The abstract map changes at the key only.
    pub view-written :
        (q : Text)
        → (text_eq q k ≡ false → find q ys ≡ find q (row xss i))
        → view q (set xss i ys) ≡ (if text_eq q k then find k ys else view q xss)
    view-written q same = elim (Bool-cases (text_eq q k)) [
      | inl e ↦
          let new = written-IsTable in
          rw (e, eq_of_text_eq q k e)
            (view-row k (set xss i ys) i (λ j h. pos_injective j i (sym (new.placed j k h) ∙ at_i))
              ∙ ap (find k) (row-set_self xss i ys wide))
      | inr ne ↦ rw ne (view-set_same q xss i ys (same ne))
    ]
