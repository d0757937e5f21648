-- ===== src/NodeList/Remove.antt =====
-- `list_remove` of source/list.c: what it returns, and what it leaves behind.
use hash_map_storage_service.Prelude.{
  ℕ, suc, ◌-◌, ◌≡◌, refl, inl, inr, none, some, [], ◌∷◌, length, arith, Bool-cases, Option-cases,
  true, false, ap, ◌∙◌, ◌≢◌,
}
use hash_map_storage_service.Prelude.Int.{pos, minus_one}
use hash_map_storage_service.Prelude.Outcome.{ret, fault, ◌>>=◌}
use hash_map_storage_service.Prelude.Text.{Text, text_eq, text_eq_symm, strcmp_eq}
use hash_map_storage_service.NodeList.{
  Ptr, node, ListT, write, load, remove_last, remove_loop, remove_from, list_remove,
}
use hash_map_storage_service.NodeList.Cells.{
  Cells, Cell, entry_of, IsList, TailOk, has_key, erase, last,
}
use hash_map_storage_service.NodeList.Frame.{Chain-write}
use hash_map_storage_service.NodeList.Shape
use hash_map_storage_service.NodeList.RemoveLoop.{shorter, remove_loop-erase, remove_loop-absent}

-- The head goes with no look at the tail, which keeps its value; the node is freed.
pub record Beheaded (key : Text) (l : ListT) (x : Cell) (xs : Cells) (m : ListT) : Type 0 where
  pub removed : list_remove (some l) (some key) ≡ ret (pos 0, some m)
  pub is_list : IsList m xs
  pub tail : m.tail ≡ l.tail
  pub fresh : m.fresh ≡ l.fresh
  pub freed : m.heap x.address ≡ none
  pub gone : (a : ℕ) → l.heap a ≡ none → m.heap a ≡ none

pub list_remove-head :
    (key : Text) (l : ListT) (x : Cell) (xs : Cells)
    → IsList l (x ∷ xs)
    → text_eq key x.key ≡ true
    → (m : ListT) × Beheaded key l x xs m
unfolding list_remove write strcmp_eq
list_remove-head key l x xs is hit =
    let (e, (q, holds, out, c)) = is.chain in
    (
      record l { heap = write l.heap x.address none; head = q; size = l.size - 1 },
      record {
        removed = rw (e, remove_from) (rw (holds, text_eq_symm x.key key, hit) refl);
        is_list = record {
          chain = Chain-write l.heap x.address none q xs c out;
          count = omega (arith, is.count);
          below = is.below.1;
          room = omega (arith, is.room);
          distinct = is.distinct.1;
        };
        tail = refl;
        fresh = refl;
        freed = ground arith;
        gone = λ a no. ground arith;
      },
    )

remove_from-miss :
    (key : Text) (l : ListT) (p : Ptr) (x : Cell) (q : Ptr)
    → p ≡ some x.address
    → l.heap x.address ≡ some (node (entry_of x) q)
    → text_eq key x.key ≡ false
    → remove_from key l p ≡ remove_loop key l (suc l.fresh) (some x.address)
unfolding remove_from load strcmp_eq
remove_from-miss key l p x q e holds miss = rw (e, holds, text_eq_symm x.key key, miss) refl

-- A removal behind the head leaves a sound tail.
list_remove-behind :
    (key : Text) (l : ListT) (x y : Cell) (ys : Cells)
    → IsList l (x ∷ y ∷ ys)
    → l.tail ≡ last (y ∷ ys)
    → text_eq key x.key ≡ false
    → has_key key (x ∷ y ∷ ys) ≡ true
    → (m : ListT) × (list_remove (some l) (some key) ≡ ret (pos 0, some m))
      × IsList m (erase key (x ∷ y ∷ ys))
      × TailOk m.tail (erase key (x ∷ y ∷ ys))
unfolding list_remove erase
list_remove-behind key l x y ys is at_last miss h =
    let (e, (q, holds, out, c)) = is.chain in
    let (heap, tail, run, r) =
      remove_loop-erase key l (suc l.fresh) x y ys q
        (record { holds = holds; apart = out; chain = c }) at_last (omega (arith, is.room))
        (ground arith) in
    (
      shorter key l heap tail,
      ap (λ r. r >>= λ (r, l'). ret (r, some l'))
          (remove_from-miss key l l.head x q e holds miss ∙ run),
      record {
        chain = rw miss (e, r.chain.1);
        count = omega (arith, is.count, Shape.length-erase key (x ∷ y ∷ ys) h);
        below = Shape.Below-erase key l.fresh (x ∷ y ∷ ys) is.below;
        room = omega (arith, is.room, Shape.length-erase key (x ∷ y ∷ ys) h);
        distinct = Shape.Distinct-erase key (x ∷ y ∷ ys) is.distinct;
      },
      rw miss (inl r.tail_last),
    )

-- On a list with a sound tail, `list_remove` of a key that is there returns 0 and takes out the
-- first cell with the key. The tail stays sound, unless the only node goes and was the tail.
pub list_remove-erase :
    (key : Text) (l : ListT) (xs : Cells)
    → IsList l xs
    → TailOk l.tail xs
    → has_key key xs ≡ true
    → (m : ListT) × (list_remove (some l) (some key) ≡ ret (pos 0, some m))
      × IsList m (erase key xs)
      × ((length xs ≡ 1 → l.tail ≡ none) → TailOk m.tail (erase key xs))
unfolding erase
list_remove-erase key l [] is ok h = ground arith
list_remove-erase key l (x ∷ []) is ok h =
    let hit : text_eq key x.key ≡ true = ground arith in
    let (m, b) = list_remove-head key l x [] is hit in
    (m, b.removed, rw hit b.is_list, λ empty. rw hit (inl (b.tail ∙ empty refl)))
list_remove-erase key l (x ∷ y ∷ ys) is ok h = elim (Bool-cases (text_eq key x.key)) [
  | inl hit ↦
      let (m, b) = list_remove-head key l x (y ∷ ys) is hit in
      (m, b.removed, rw hit b.is_list, λ _. rw hit (inl (b.tail ∙ tail_last x y ys ok)))
  | inr miss ↦
      let (m, run, is', ok') = list_remove-behind key l x y ys is (tail_last x y ys ok) miss h in
      (m, run, is', λ _. ok')
]
  where
    tail_last : (x y : Cell) (ys : Cells) → TailOk l.tail (x ∷ y ∷ ys) → l.tail ≡ last (y ∷ ys)
    tail_last x y ys (inl e) = e
    tail_last x y ys (inr (short, _)) = absurd (omega arith)

-- The loop reads behind the node, or it stops and the comparison after it does.
remove_loop-alone :
    (key : Text) (l : ListT) (x : Cell) (q : Ptr) (f : ℕ)
    → l.heap x.address ≡ some (node (entry_of x) q)
    → q ≡ none
    → remove_loop key l (suc f) (some x.address) ≡ fault
unfolding remove_loop remove_last load
remove_loop-alone key l x q f holds c = elim (Option-cases l.tail) [
  | inl no_tail ↦ rw (holds, c, no_tail) (rw (holds, c) refl)
  | inr (t, tail) ↦ rw (holds, c, tail) (rw c refl)
]

-- `list_remove` of a key that is not there returns -1 and changes nothing, but on a list of one
-- node it reads behind the node.
pub list_remove-absent :
    (key : Text) (l : ListT) (xs : Cells)
    → IsList l xs
    → TailOk l.tail xs
    → has_key key xs ≡ false
    → (length xs ≢ 1 → list_remove (some l) (some key) ≡ ret (minus_one, some l))
      × (length xs ≡ 1 → list_remove (some l) (some key) ≡ fault)
unfolding list_remove remove_from
list_remove-absent key l [] is ok h = (λ _. rw is.chain refl, λ e. absurd (omega arith))
list_remove-absent key l (x ∷ []) is ok h = (
  λ ne. absurd (ne refl),
  λ _.
      let (e, (q, holds, out, c)) = is.chain in
      ap (λ r. r >>= λ (r, l'). ret (r, some l'))
        (remove_from-miss key l l.head x q e holds (ground arith)
          ∙ remove_loop-alone key l x q l.fresh holds c),
)
list_remove-absent key l (x ∷ y ∷ ys) is (inr (short, _)) h = absurd (omega arith)
list_remove-absent key l (x ∷ y ∷ ys) is (inl at_last) h =
    let (e, (q, holds, out, c)) = is.chain in
    let run =
      remove_loop-absent key l (suc l.fresh) x y ys q
        (record { holds = holds; apart = out; chain = c }) at_last (omega (arith, is.room))
        (ground arith) in
    (
      λ _.
          ap (λ r. r >>= λ (r, l'). ret (r, some l'))
            (remove_from-miss key l l.head x q e holds (ground arith) ∙ run),
      λ one. absurd (omega arith),
    )
