-- ===== src/NodeList/RemoveLoop.antt =====
-- The loop of `list_remove` in source/list.c, which looks one node ahead and stops at the tail.
use hash_map_storage_service.Prelude.{
  ℕ, zero, suc, ◌-◌, ◌≤◌, ◌≡◌, refl, inl, inr, none, some, [], ◌∷◌, length, arith, Bool-cases, sym,
  true, false, ◌∙◌,
}
use hash_map_storage_service.Prelude.Int.{pos, minus_one}
use hash_map_storage_service.Prelude.Outcome.{ret}
use hash_map_storage_service.Prelude.Text.{Text, text_eq, text_eq_symm, strcmp_eq}
use hash_map_storage_service.NodeList.{
  Ptr, Heap, node, ListT, write, load, set_proximo, ptr_eq, unlink, remove_last, remove_loop,
}
use hash_map_storage_service.NodeList.Cells.{
  Cells, Cell, entry_of, Chain, has, has_key, erase, last,
}
use hash_map_storage_service.NodeList.Frame.{Chain-write}
use hash_map_storage_service.NodeList.Shape

-- The cell x stands in the heap in front of the cells ys.
pub record Before (h : Heap) (x : Cell) (q : Ptr) (ys : Cells) : Type 0 where
  pub holds : h x.address ≡ some (node (entry_of x) q)
  pub apart : has x.address ys ≡ false
  pub chain : Chain h q ys

module _ (key : Text) (l : ListT) where
  -- The list l with another heap and tail, and one node less.
  abbrev pub shorter : Heap → Ptr → ListT
  shorter heap tail = record l { heap = heap; tail = tail; size = l.size - 1 }

  -- the heap after the node of y, which follows x, is taken out
  abbrev cut_heap : Cell → Cell → Ptr → Heap
  cut_heap x y q = write (write l.heap x.address (some (node (entry_of x) q))) y.address none

  unlink-run :
      (x y : Cell) (q r : Ptr)
      → l.heap x.address ≡ some (node (entry_of x) q)
      → q ≡ some y.address
      → l.heap y.address ≡ some (node (entry_of y) r)
      → unlink (some x.address) q l ≡ ret (shorter (cut_heap x y r) l.tail)
  unfolding unlink load set_proximo
  unlink-run x y q r hx e hy = rw (e, hy, hx) refl

  cut-Chain :
      (x y : Cell) (ys : Cells) (r : Ptr)
      → has x.address (y ∷ ys) ≡ false
      → has y.address ys ≡ false
      → Chain l.heap r ys
      → Chain (cut_heap x y r) (some x.address) (x ∷ ys)
  unfolding write
  cut-Chain x y ys r apart out c = (
    refl,
    (
      r,
      ground arith,
      ground arith,
      Chain-write _ y.address none r ys (Chain-write l.heap x.address _ r ys c (ground arith)) out,
    ),
  )

  not_tail :
      (p t : Ptr) (a : ℕ) (ys : Cells)
      → p ≡ some a
      → t ≡ last ys
      → has a ys ≡ false
      → ptr_eq p t ≡ false
  not_tail p none a ys e at_last out = rw e refl
  not_tail p (some t) a ys e at_last out = rw e (ground (arith, Shape.has-last t ys (sym at_last)))

  -- Where the loop ends after a removal behind x.
  pub record Removed (x : Cell) (ys : Cells) (heap : Heap) (tail : Ptr) : Type 0 where
    pub chain : Chain heap (some x.address) (x ∷ erase key ys)
    pub tail_last : tail ≡ last (x ∷ erase key ys)
    pub same : (b : ℕ) → has b (x ∷ ys) ≡ false → heap b ≡ l.heap b

  pub remove_loop-erase :
      (f : ℕ) (x y : Cell) (ys : Cells) (q : Ptr)
      → Before l.heap x q (y ∷ ys)
      → l.tail ≡ last (y ∷ ys)
      → length (y ∷ ys) ≤ f
      → has_key key (y ∷ ys) ≡ true
      → (heap : Heap) × (tail : Ptr) × (remove_loop key l f (some x.address)
          ≡ ret (pos 0, shorter heap tail))
        × Removed x (y ∷ ys) heap tail
  unfolding remove_loop remove_last load strcmp_eq erase write
  remove_loop-erase zero x y ys q b e lt h = absurd (omega arith)
  remove_loop-erase (suc f) x y [] q b e lt h =
      let hit : text_eq key y.key ≡ true = ground arith in
      let (at_y, (r, holds, out, c)) = b.chain in
      let next : ptr_eq q l.tail ≡ true = rw (at_y, e) (ground arith) in
      (
        cut_heap x y r,
        some x.address,
        rw (b.holds, next, b.holds, at_y, holds, text_eq_symm y.key key, hit)
            (rw (unlink-run x y q r b.holds at_y holds) refl),
        record {
          chain = rw hit (cut-Chain x y [] r b.apart out c);
          tail_last = rw hit refl;
          same = λ a o. ground arith;
        },
      )
  remove_loop-erase (suc f) x y (z ∷ zs) q b e lt h =
      let (at_y, (r, holds, out, c)) = b.chain in
      let far : ptr_eq q l.tail ≡ false = not_tail q l.tail y.address (z ∷ zs) at_y e out in
      elim (Bool-cases (text_eq key y.key)) [
        | inl hit ↦ (
          cut_heap x y r,
          l.tail,
          rw (b.holds, far, at_y, holds, text_eq_symm y.key key, hit)
              (rw (unlink-run x y q r b.holds at_y holds) refl),
          record {
            chain = rw hit (cut-Chain x y (z ∷ zs) r b.apart out c);
            tail_last = rw hit e;
            same = λ a o. ground arith;
          },
        )
        | inr miss ↦
            let (heap, tail, run, m) =
              remove_loop-erase f y z zs r (record { holds = holds; apart = out; chain = c }) e
                (omega arith) (ground arith) in
            (
              heap,
              tail,
              rw (b.holds, far, at_y, holds, text_eq_symm y.key key, miss) (rw at_y run),
              record {
                chain = rw miss (
                  refl,
                  (
                    q,
                    m.same x.address b.apart ∙ b.holds,
                    ground (arith, b.apart, Shape.has-erase key x.address (z ∷ zs)),
                    (at_y, m.chain.1),
                  ),
                );
                tail_last = rw miss m.tail_last;
                same = λ a o. m.same a (ground arith);
              },
            )
      ]

  -- No node behind x has the key: the loop gives up at the tail.
  pub remove_loop-absent :
      (f : ℕ) (x y : Cell) (ys : Cells) (q : Ptr)
      → Before l.heap x q (y ∷ ys)
      → l.tail ≡ last (y ∷ ys)
      → length (y ∷ ys) ≤ f
      → has_key key (y ∷ ys) ≡ false
      → remove_loop key l f (some x.address) ≡ ret (minus_one, l)
  unfolding remove_loop remove_last load strcmp_eq
  remove_loop-absent zero x y ys q b e lt h = absurd (omega arith)
  remove_loop-absent (suc f) x y [] q b e lt h =
      let miss : text_eq key y.key ≡ false = ground arith in
      let (at_y, (r, holds, out, c)) = b.chain in
      let next : ptr_eq q l.tail ≡ true = rw (at_y, e) (ground arith) in
      rw (b.holds, next, b.holds, at_y, holds, text_eq_symm y.key key, miss) refl
  remove_loop-absent (suc f) x y (z ∷ zs) q b e lt h =
      let (at_y, (r, holds, out, c)) = b.chain in
      let far : ptr_eq q l.tail ≡ false = not_tail q l.tail y.address (z ∷ zs) at_y e out in
      let miss : text_eq key y.key ≡ false = ground arith in
      rw (b.holds, far, at_y, holds, text_eq_symm y.key key, miss)
        (rw at_y (
          remove_loop-absent f y z zs r (record { holds = holds; apart = out; chain = c }) e
            (omega arith) (ground arith)))
