-- ===== src/Table/Sound.antt =====
-- `table_put` and `table_del` of source/table.c between any other calls: a tail may be a node that
-- was freed.
use hash_map_storage_service.Prelude.{
  ℕ, zero, suc, ◌+◌, ◌-◌, ◌<◌, ◌≡◌, refl, ◌∙◌, ap, sym, ◌⊎◌, inl, inr, true, false, Option, none,
  some, List, [], ◌∷◌, length, set, get_elem?, arith, Bool-cases, Option-cases, ◌==◌, ◌||◌, ==_iff,
  is_some,
}
use mathlib.Core.Path.{subst}
use hash_map_storage_service.Prelude.Int.{ℤ, pos, negsuc}
use hash_map_storage_service.Prelude.Outcome.{fault, IfReturns, IfReturns-then}
use hash_map_storage_service.Prelude.Text.{Text, text_eq}
use hash_map_storage_service.Data.{Data, data_dup}
use hash_map_storage_service.Entry.{entry, entry_create}
use hash_map_storage_service.NodeList.{ListT}
use hash_map_storage_service.NodeList.Cells.{Cells, cell, IsList, find, has_key, erase}
use hash_map_storage_service.NodeList.Frame.{is_some-find, find-none, has_key-erase}
use hash_map_storage_service.NodeList.Get.{list_get-find}
use hash_map_storage_service.NodeList.Shape
use hash_map_storage_service.NodeList.Stale.{HasTail, list_remove-HasTail, list_add-HasTail}
use hash_map_storage_service.Table.{
  Lists, TableT, hash, list_at, store_list, put_entry, put_value, table_put, table_del,
}
use hash_map_storage_service.Table.Rows.{IsTable, row, total-set, row-set_self, row-set_ne}
use hash_map_storage_service.Table.Write.{written, list_at-row, written-IsTable, wide, in_range}
use hash_map_storage_service.Table.PutRow.{snoc-PutRow, erase-snoc-PutRow, has_key-erase_self}

-- Each list has a tail that is sound or was freed.
abbrev pub HasTails : Lists → List Cells → Type 0
HasTails ls xss = (i : ℕ) (l : ListT) → get_elem? ls i ≡ some (some l) → HasTail l (row xss i)

pub record IsSound (t : TableT) : Type 0 where
  pub rows : List Cells
  pub is_table : IsTable t rows
  pub tails : HasTails t.list rows

-- The call leaves a sound table.
abbrev pub LeavesSound : ℤ × Option TableT → Type 0
LeavesSound r = (t : TableT) × (r.1 ≡ some t) × IsSound t

some_injective : (l l' : ListT) → some (some l) ≡ some (some l') → l ≡ l'
some_injective l l' e = ground arith

get_elem?-set_self :
    (ls : Lists) (i : ℕ) (v : Option ListT) → i < length ls → get_elem? (set ls i v) i ≡ some v
get_elem?-set_self [] i v lt = absurd (omega arith)
get_elem?-set_self (l ∷ ls) zero v lt = refl
get_elem?-set_self (l ∷ ls) (suc i) v lt = get_elem?-set_self ls i v (omega arith)

get_elem?-set_ne :
    (ls : Lists) (i j : ℕ) (v : Option ListT)
    → (i == j) ≡ false
    → get_elem? (set ls i v) j ≡ get_elem? ls j
get_elem?-set_ne [] i j v ne = refl
get_elem?-set_ne (l ∷ ls) zero zero v ne = absurd (ground arith)
get_elem?-set_ne (l ∷ ls) zero (suc j) v ne = refl
get_elem?-set_ne (l ∷ ls) (suc i) zero v ne = refl
get_elem?-set_ne (l ∷ ls) (suc i) (suc j) v ne = get_elem?-set_ne ls i j v (ground arith)

module _ (t : TableT) (is : IsSound t) (k : Text) (i : ℕ)
    (at_i : hash k t.count_lists ≡ pos i) where
  abbrev old_row : Cells
  old_row = row is.rows i

  -- The list i is replaced by a list of the cells ys.
  written-IsSound :
      (l : ListT) (ys : Cells) (s : ℕ)
      → IsList l ys
      → HasTail l ys
      → ((q : Text) → has_key q ys ≡ true → (has_key q old_row || text_eq q k) ≡ true)
      → s + length old_row ≡ t.size + length ys
      → IsSound (written t i l s)
  written-IsSound l ys s is_list tail keys count = record {
    rows = set is.rows i ys;
    is_table = written-IsTable t is.rows k i is.is_table at_i l ys s is_list keys count;
    tails = λ j l' e. elim (Bool-cases (i == j)) [
      | inl same ↦ subst At ((==_iff i j).0 same) here l' e
      | inr ne ↦
          subst (HasTail l') (sym (row-set_ne is.rows i j ys (λ e. absurd (differ i j ne e))))
            (is.tails j l' (sym (get_elem?-set_ne t.list i j (some l) ne) ∙ e))
    ];
  }
    where
      At : ℕ → Type 0
      At j =
          (l' : ListT)
          → get_elem? (set t.list i (some l)) j ≡ some (some l')
          → HasTail l' (row (set is.rows i ys) j)

      here : At i
      here l' e =
          let there =
            get_elem?-set_self t.list i (some l) (in_range t is.rows k i is.is_table at_i) in
          subst (λ m. HasTail m (row (set is.rows i ys) i)) (some_injective l l' (sym there ∙ e))
            (subst (HasTail l)
              (sym (row-set_self is.rows i ys (wide t is.rows k i is.is_table at_i))) tail)

      differ : (i j : ℕ) → (i == j) ≡ false → i ≡ j → ⊥
      differ i j ne e = ground arith

  -- An entry that is put into the list.
  put_entry-at : (d : Data) → IfReturns (put_entry t k (some (entry (some k) (some d)))) LeavesSound
  unfolding put_entry store_list
  put_entry-at d =
      let (l, at_l, elem, is_list) = list_at-row t is.rows k i is.is_table at_i in
      let found = list_get-find l old_row k is_list in
      let tail = is.tails i l elem in
      elim (Bool-cases (has_key k old_row)) [
        | inl h ↦ elim (Option-cases (find k old_row)) [
          | inl no_entry ↦ absurd (ground (arith, is_some-find k old_row))
          | inr (e, there) ↦
              let (l', removed, is', tail') = list_remove-HasTail k l old_row is_list tail h in
              let gone = has_key-erase_self k old_row is_list.distinct in
              elim (list_add-HasTail k (some d) l' (erase k old_row) is' tail' gone) [
                | inl (m, a, tail'') ↦
                    let p = erase-snoc-PutRow k (some d) l'.fresh old_row is_list.distinct h in
                    let shrunk = Shape.length-erase k old_row h in
                    let grown = Shape.length-snoc (erase k old_row) (cell l'.fresh k (some d)) in
                    rw (at_l, found, there, removed, a.added, at_i)
                      (
                        _,
                        refl,
                        written-IsSound m _ t.size a.is_list tail'' p.keys
                            (omega (arith, shrunk, grown)),
                      )
                | inr stuck ↦ rw (at_l, found, there, removed, stuck) tt
              ]
        ]
        | inr h ↦ elim (list_add-HasTail k (some d) l old_row is_list tail h) [
          | inl (m, a, tail') ↦
              let p = snoc-PutRow k (some d) l.fresh old_row h in
              let grown = Shape.length-snoc old_row (cell l.fresh k (some d)) in
              rw (at_l, found, find-none k old_row h, a.added, at_i)
                (
                  _,
                  refl,
                  written-IsSound m _ (t.size + 1) a.is_list tail' p.keys (omega (arith, grown)),
                )
          | inr stuck ↦ rw (at_l, found, find-none k old_row h, stuck) tt
        ]
      ]

  -- The key is taken out of the list.
  table_del-at : (t.count_lists == 0) ≡ false → IfReturns (table_del (some t) (some k)) LeavesSound
  unfolding table_del store_list
  table_del-at nonzero =
      let (l, at_l, elem, is_list) = list_at-row t is.rows k i is.is_table at_i in
      let found = list_get-find l old_row k is_list in
      elim (Option-cases (find k old_row)) [
        | inl absent ↦ rw (nonzero, at_l, found, absent) (t, refl, is)
        | inr (e, there) ↦
            let h : has_key k old_row ≡ true = sym (is_some-find k old_row) ∙ ap is_some there in
            let (l', removed, is', tail') =
              list_remove-HasTail k l old_row is_list (is.tails i l elem) h in
            let shrunk = Shape.length-erase k old_row h in
            let room = total-set is.rows i [] (wide t is.rows k i is.is_table at_i) in
            rw (nonzero, at_l, found, there, removed, at_i)
              (
                _,
                refl,
                written-IsSound l' (erase k old_row) (t.size - 1) is' tail'
                    (λ q m. ground (arith, has_key-erase k q old_row m))
                    (omega (arith, shrunk, room, is.is_table.counted)),
              )
      ]

-- A key with a negative hash is a fault.
index-cases : (ls : Lists) (z : ℤ) → ((i : ℕ) × (z ≡ pos i)) ⊎ (list_at ls z ≡ fault)
unfolding list_at
index-cases ls (pos i) = inl (i, refl)
index-cases ls (negsuc i) = inr refl

put_entry-IsSound :
    (t : TableT) (is : IsSound t) (k : Text) (d : Data)
    → IfReturns (put_entry t k (some (entry (some k) (some d)))) LeavesSound
unfolding put_entry
put_entry-IsSound t is k d = elim (index-cases t.list (hash k t.count_lists)) [
  | inl (i, at_i) ↦ put_entry-at t is k i at_i d
  | inr stuck ↦ rw stuck tt
]

-- A put into a sound table, if it returns, leaves a sound table, for every key and every value.
pub table_put-IsSound :
    (t : TableT) (is : IsSound t) (key : Option Text) (v : Option Data)
    → IfReturns (table_put (some t) key v) LeavesSound
unfolding table_put put_value entry_create
table_put-IsSound t is none v = (t, refl, is)
table_put-IsSound t is (some key) none = (t, refl, is)
table_put-IsSound t is (some key) (some v) = elim (Bool-cases (t.count_lists == 0)) [
  | inl e ↦ rw e (t, refl, is)
  | inr e ↦ rw e (IfReturns-then LeavesSound (data_dup (some v)) (put_value t key) at_value)
]
  where
    at_value : (v : Option Data) → IfReturns (put_value t key v) LeavesSound
    at_value none = (t, refl, is)
    at_value (some d) = put_entry-IsSound t is key d

-- So does a delete.
pub table_del-IsSound :
    (t : TableT) (is : IsSound t) (key : Option Text)
    → IfReturns (table_del (some t) key) LeavesSound
unfolding table_del
table_del-IsSound t is none = (t, refl, is)
table_del-IsSound t is (some key) = elim (index-cases t.list (hash key t.count_lists)) [
  | inl (i, at_i) ↦ table_del-at t is key i at_i nonzero
  | inr stuck ↦ rw (nonzero, stuck) tt
]
  where
    nonzero : (t.count_lists == 0) ≡ false
    nonzero = let h = is.is_table.positive in ground arith
