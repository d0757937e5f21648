-- ===== src/Table/Dangling.antt =====
-- A list of the table that shrank to one node, which is then its tail.
use hash_map_storage_service.Prelude.{
  ℕ, zero, suc, ◌+◌, ◌-◌, ◌<◌, ◌≤◌, ◌≡◌, refl, ◌∙◌, none, some, [], ◌∷◌, List, length, set,
  get_elem?, false, arith, ◌==◌, ◌≢◌,
}
use hash_map_storage_service.Prelude.Int.{pos}
use hash_map_storage_service.Prelude.Outcome.{ret, fault, ◌>>=◌}
use hash_map_storage_service.Prelude.Text.{Text, text_eq, text_eq_refl}
use hash_map_storage_service.Data.{Block, Data, data_of}
use hash_map_storage_service.Data.Dup.{dup_of, data_dup-eq}
use hash_map_storage_service.Entry.{entry, entry_create}
use hash_map_storage_service.NodeList.{ListT, list_add}
use hash_map_storage_service.NodeList.Append.{Appended, list_add-first, list_add-dangling}
use hash_map_storage_service.NodeList.Cells.{Cells, Cell, cell, entry_of, IsList, find, has_key}
use hash_map_storage_service.NodeList.Frame.{find-none}
use hash_map_storage_service.NodeList.Get.{list_get-find}
use hash_map_storage_service.NodeList.Remove.{Beheaded, list_remove-head}
use hash_map_storage_service.Table.{
  TableT, hash, list_at, store_list, put_entry, put_value, table_put, table_del,
}
use hash_map_storage_service.Table.Write.{written}

get_elem?-set {ℓ} :
    {A : Type ℓ} (xs : List A) (i : ℕ) (a b : A)
    → get_elem? xs i ≡ some a
    → get_elem? (set xs i b) i ≡ some b
get_elem?-set [] i a b e = ground arith
get_elem?-set (x ∷ xs) zero a b e = refl
get_elem?-set (x ∷ xs) (suc i) a b e = get_elem?-set xs i a b e

-- The list i of the table t is l, which stands for xs.
record Holds (t : TableT) (i : ℕ) (l : ListT) (xs : Cells) : Type 0 where
  elem : get_elem? t.list i ≡ some (some l)
  is_list : IsList l xs
  positive : 0 < t.count_lists

module _ (t : TableT) (i : ℕ) (l : ListT) (xs : Cells) (h : Holds t i l xs) where
  nonzero : (t.count_lists == 0) ≡ false
  nonzero = let p = h.positive in ground arith

  list_at-elem :
      (k : Text)
      → hash k t.count_lists ≡ pos i
      → list_at t.list (hash k t.count_lists) ≡ ret (some l)
  unfolding list_at
  list_at-elem k at_i = rw at_i (rw h.elem refl)

  -- A put of a key that the list does not have is an addition to the list.
  put-absent :
      (k : Text) (n : ℕ) (src : Block)
      → hash k t.count_lists ≡ pos i
      → 0 < n
      → n ≤ 16
      → n ≤ length src
      → has_key k xs ≡ false
      → table_put (some t) (some k) (some (data_of (pos n) (some src))) ≡ (
          list_add (some l) (some (entry (some k) (some (dup_of n src)))) >>= λ r.
          ret (pos 0, some (record (store_list t (pos i) r.1) { size = t.size + 1 })))
  unfolding table_put put_value put_entry entry_create
  put-absent k n src at_i p q w absent =
      rw
        (
          nonzero,
          data_dup-eq n src p q w,
          list_at-elem k at_i,
          list_get-find l xs k h.is_list,
          find-none k xs absent,
          at_i,
        )
        refl

-- When a list has shrunk to one node that is its tail, a delete of that node's key and puts of two
-- different keys of the list, with values of 1 to 16 bytes, write to the freed node.
pub table_del-put-put_fault :
    (t : TableT) (i : ℕ) (l : ListT) (x : Cell) (k k' : Text) (n n' : ℕ) (src src' : Block)
    → 0 < t.count_lists
    → get_elem? t.list i ≡ some (some l)
    → IsList l (x ∷ [])
    → l.tail ≡ some x.address
    → hash x.key t.count_lists ≡ pos i
    → hash k t.count_lists ≡ pos i
    → hash k' t.count_lists ≡ pos i
    → text_eq k' k ≡ false
    → (0 < n) × (n ≤ 16) × (n ≤ length src)
    → (0 < n') × (n' ≤ 16) × (n' ≤ length src')
    → (table_del (some t) (some x.key) >>= λ r.
        table_put r.1 (some k) (some (data_of (pos n) (some src))) >>= λ r'.
        table_put r'.1 (some k') (some (data_of (pos n') (some src'))))
      ≡ fault
unfolding table_del store_list
table_del-put-put_fault t i l x k k' n n' src src' p elem is tail at_x at_k at_k' ne (a, b, c)
      (a', b', c') =
    let (m, bh) = list_remove-head x.key l x [] is (text_eq_refl x.key) in
    let t₁ = written t i m (t.size - 1) in
    let h₀ : Holds t i l (x ∷ []) = record { elem = elem; is_list = is; positive = p } in
    let h₁ : Holds t₁ i m [] = record {
      elem = get_elem?-set t.list i _ _ elem;
      is_list = bh.is_list;
      positive = p;
    } in
    let (m', ad, kept, same, fresh) = list_add-first k (some (dup_of n src)) m bh.is_list in
    let t₂ = written t₁ i m' (t₁.size + 1) in
    let h₂ : Holds t₂ i m' (cell m.fresh k (some (dup_of n src)) ∷ []) = record {
      elem = get_elem?-set t₁.list i _ _ h₁.elem;
      is_list = ad.is_list;
      positive = p;
    } in
    let last =
      list_add-dangling k' (some (dup_of n' src')) m' _ x.address ad.is_list (absent k' k ne)
        (filled m m' (dup_of n src) ad) (kept ∙ bh.tail ∙ tail)
        (same x.address (older m bh) ∙ bh.freed) (older' m m' bh fresh) in
    rw
      (
        nonzero t i l (x ∷ []) h₀,
        list_at-elem t i l (x ∷ []) h₀ x.key at_x,
        list_get-find l (x ∷ []) x.key is,
        found,
        bh.removed,
        at_x,
      )
      (rw (put-absent t₁ i m [] h₁ k n src at_k a b c refl, ad.added)
        (rw (put-absent t₂ i m' _ h₂ k' n' src' at_k' a' b' c' (absent k' k ne), last) refl))
  where
    absent : (k' k : Text) → text_eq k' k ≡ false → has_key k' (cell 0 k none ∷ []) ≡ false
    absent k' k ne = rw ne refl

    found : find x.key (x ∷ []) ≡ some (entry_of x)
    found = unfold find in rw (text_eq_refl x.key) refl

    older : (m : ListT) → Beheaded x.key l x [] m → x.address < m.fresh
    older m bh = omega (arith, bh.fresh, is.below.0)

    older' :
        (m m' : ListT) → Beheaded x.key l x [] m → m'.fresh ≡ suc m.fresh → x.address < m'.fresh
    older' m m' bh e = omega (arith, bh.fresh, is.below.0)

    filled : (m m' : ListT) (d : Data) → Appended m [] k (some d) m' → m'.head ≢ none
    filled m m' d ad e = ground (arith, ad.is_list.chain.0)
