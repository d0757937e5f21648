-- ===== src/NodeList/Add.antt =====
-- `list_add` of source/list.c: the entry of a key that is there is replaced.
use hash_map_storage_service.Prelude.{
  ℕ, zero, suc, ◌<◌, ◌≡◌, refl, inl, inr, Option, some, [], ◌∷◌, length, arith, Bool-cases,
  Option-cases, sym, true, false, ◌∙◌,
}
use hash_map_storage_service.Prelude.Int.{pos}
use hash_map_storage_service.Prelude.Outcome.{ret}
use hash_map_storage_service.Prelude.Text.{Text, text_eq, text_eq_symm, strcmp_eq}
use hash_map_storage_service.Data.{Data}
use hash_map_storage_service.Entry.{entry}
use hash_map_storage_service.NodeList.{Ptr, Heap, node, ListT, write, load, replace_loop, list_add}
use hash_map_storage_service.NodeList.Cells.{Cells, Chain, IsList, find, has, has_key, assign}
use hash_map_storage_service.NodeList.Frame.{Chain-write, is_some-find}
use hash_map_storage_service.NodeList.Shape
use hash_map_storage_service.NodeList.Get.{list_get-find}

module _ (k : Text) (v : Option Data) (l : ListT) where
  -- the heap after the replacement
  record Replaced (p : Ptr) (xs : Cells) (heap : Heap) : Type 0 where
    chain : Chain heap p (assign k v xs)
    same : (b : ℕ) → has b xs ≡ false → heap b ≡ l.heap b

  replace_loop-assign :
      (f : ℕ) (p : Ptr) (xs : Cells)
      → Chain l.heap p xs
      → length xs < f
      → has_key k xs ≡ true
      → (heap : Heap) × (replace_loop (entry (some k) v) l f p
          ≡ ret (pos 0, record l { heap = heap }))
        × Replaced p xs heap
  unfolding replace_loop load strcmp_eq assign write
  replace_loop-assign zero p xs c lt h = absurd (omega arith)
  replace_loop-assign (suc f) p [] c lt h = ground arith
  replace_loop-assign (suc f) p (x ∷ xs) (e, (q, holds, out, c)) lt h =
      elim (Bool-cases (text_eq k x.key)) [
        | inl hit ↦ (
          write l.heap x.address (some (node (entry (some k) v) q)),
          rw (e, holds, text_eq_symm x.key k, hit) refl,
          record {
            chain = rw hit (e, (q, ground arith, out, Chain-write l.heap x.address _ q xs c out));
            same = λ b o. ground arith;
          },
        )
        | inr miss ↦
            let (heap, run, r) = replace_loop-assign f q xs c (omega arith) (ground arith) in
            (
              heap,
              rw (e, holds, text_eq_symm x.key k, miss) run,
              record {
                chain = rw miss (
                  e,
                  (
                    q,
                    r.same x.address out ∙ holds,
                    Shape.has-assign k v x.address xs ∙ out,
                    r.chain,
                  ),
                );
                same = λ b o. r.same b (ground arith);
              },
            )
      ]

module _ (k : Text) (v : Option Data) (l : ListT) (xs : Cells) (is : IsList l xs) where
  -- A key that is there: the first entry with it is replaced in place, and the tail is kept.
  pub list_add-replace :
      has_key k xs ≡ true
      → (m : ListT) × (list_add (some l) (some (entry (some k) v)) ≡ ret (pos 0, some m))
        × IsList m (assign k v xs)
        × (m.tail ≡ l.tail)
  unfolding list_add
  list_add-replace h =
      let (heap, run, r) =
        replace_loop-assign k v l (suc l.fresh) l.head xs is.chain (omega (arith, is.room)) h in
      elim (Option-cases (find k xs)) [
        | inl no_entry ↦ absurd (ground (arith, is_some-find k xs))
        | inr (e, found) ↦ (
          record l { heap = heap },
          rw (list_get-find l xs k is, found, run) refl,
          record {
            chain = r.chain;
            count = is.count ∙ sym (Shape.length-assign k v xs);
            below = Shape.Below-assign k v l.fresh xs is.below;
            room = omega (arith, is.room, Shape.length-assign k v xs);
            distinct = Shape.Distinct-assign k v xs is.distinct;
          },
          refl,
        )
      ]
