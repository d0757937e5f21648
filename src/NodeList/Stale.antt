-- ===== src/NodeList/Stale.antt =====
-- A list of source/list.c between any calls of its functions: its tail may be a node that was freed.
use hash_map_storage_service.Prelude.{
  ℕ, ◌≤◌, ◌<◌, ◌≡◌, ◌∙◌, ◌⊎◌, inl, inr, Option, none, some, [], ◌∷◌, ◌++◌, length, arith, true,
  false, ◌≢◌,
}
use hash_map_storage_service.Prelude.Int.{pos}
use hash_map_storage_service.Prelude.Outcome.{ret, fault}
use hash_map_storage_service.Prelude.Text.{Text, text_eq}
use hash_map_storage_service.Data.{Data}
use hash_map_storage_service.Entry.{entry}
use hash_map_storage_service.NodeList.{ListT, list_add, list_remove}
use hash_map_storage_service.NodeList.Cells.{Cells, cell, IsList, TailOk, has_key, erase}
use hash_map_storage_service.NodeList.Append.{
  Appended, list_add-first, list_add-append, list_add-dangling,
}
use hash_map_storage_service.NodeList.Remove.{Beheaded, list_remove-head, list_remove-erase}

-- The list has at most one node, and its tail is a node that was freed.
pub record IsStale (l : ListT) (xs : Cells) : Type 0 where
  pub address : ℕ
  pub tail : l.tail ≡ some address
  pub gone : l.heap address ≡ none
  pub below : address < l.fresh
  pub few : length xs ≤ 1

abbrev pub HasTail : ListT → Cells → Type 0
HasTail l xs = TailOk l.tail xs ⊎ IsStale l xs

-- `list_remove` of a key that is there returns 0 also when the tail was freed.
pub list_remove-HasTail :
    (k : Text) (l : ListT) (xs : Cells)
    → IsList l xs
    → HasTail l xs
    → has_key k xs ≡ true
    → (m : ListT) × (list_remove (some l) (some k) ≡ ret (pos 0, some m))
      × IsList m (erase k xs)
      × HasTail m (erase k xs)
unfolding erase
list_remove-HasTail k l [] is tail h = absurd (ground arith)
list_remove-HasTail k l (x ∷ []) is tail h =
    let hit : text_eq k x.key ≡ true = ground arith in
    let (m, b) = list_remove-head k l x [] is hit in
    (m, b.removed, rw hit b.is_list, rw hit (emptied m b tail))
  where
    emptied : (m : ListT) → Beheaded k l x [] m → HasTail l (x ∷ []) → HasTail m []
    emptied m b (inl (inl e)) = inr (record {
      address = x.address;
      tail = b.tail ∙ e;
      gone = b.freed;
      below = omega (arith, b.fresh, is.below.0);
      few = omega arith;
    })
    emptied m b (inl (inr (_, e))) = inl (inl (b.tail ∙ e))
    emptied m b (inr st) = inr (record {
      address = st.address;
      tail = b.tail ∙ st.tail;
      gone = b.gone st.address st.gone;
      below = omega (arith, b.fresh, st.below);
      few = omega arith;
    })
list_remove-HasTail k l (x ∷ y ∷ ys) is (inl ok) h =
    let (m, run, is', ok') = list_remove-erase k l (x ∷ y ∷ ys) is ok h in
    (m, run, is', inl (ok' (λ e. absurd (omega arith))))
list_remove-HasTail k l (x ∷ y ∷ ys) is (inr st) h = absurd (omega (arith, st.few))

-- `list_add` of a new key appends it, or writes to a freed tail.
pub list_add-HasTail :
    (k : Text) (v : Option Data) (l : ListT) (xs : Cells)
    → IsList l xs
    → HasTail l xs
    → has_key k xs ≡ false
    → ((m : ListT) × Appended l xs k v m × HasTail m (xs ++ cell l.fresh k v ∷ []))
      ⊎ (list_add (some l) (some (entry (some k) v)) ≡ fault)
list_add-HasTail k v l xs is (inl ok) absent =
    let (m, a, ok') = list_add-append k v l xs is absent ok in inl (m, a, inl ok')
list_add-HasTail k v l [] is (inr st) absent =
    let (m, a, kept, same, fresh) = list_add-first k v l is in
    inl (
      m,
      a,
      inr (record {
        address = st.address;
        tail = kept ∙ st.tail;
        gone = same st.address st.below ∙ st.gone;
        below = omega (arith, fresh, st.below);
        few = omega arith;
      }),
    )
list_add-HasTail k v l (x ∷ []) is (inr st) absent =
    inr (list_add-dangling k v l (x ∷ []) st.address is absent filled st.tail st.gone st.below)
  where
    filled : l.head ≢ none
    filled e = ground (arith, is.chain.0)
list_add-HasTail k v l (x ∷ y ∷ ys) is (inr st) absent = absurd (omega (arith, st.few))
