-- ===== src/NodeList/Get.antt =====
-- `list_get` of source/list.c.
use hash_map_storage_service.Prelude.{
  ℕ, zero, suc, ◌<◌, ◌≡◌, inl, inr, some, [], ◌∷◌, length, arith, Bool-cases, refl,
}
use hash_map_storage_service.Prelude.Outcome.{ret}
use hash_map_storage_service.Prelude.Text.{Text, text_eq, strcmp_eq}
use hash_map_storage_service.NodeList.{Ptr, Heap, ListT, load, get_loop, list_get}
use hash_map_storage_service.NodeList.Cells.{Cells, Chain, IsList, find}

get_loop-find :
    (k : Text) (h : Heap) (f : ℕ) (p : Ptr) (xs : Cells)
    → Chain h p xs
    → length xs < f
    → get_loop k h f p ≡ ret (find k xs)
unfolding get_loop load strcmp_eq find
get_loop-find k h zero p xs c lt = absurd (omega arith)
get_loop-find k h (suc f) p [] c lt = rw c refl
get_loop-find k h (suc f) p (x ∷ xs) (e, (q, holds, out, c)) lt =
    rw (e, holds)
      (elim (Bool-cases (text_eq k x.key)) [
        | inl hit ↦ rw hit refl
        | inr miss ↦ rw miss (get_loop-find k h f q xs c (omega arith))
      ])

-- On a list that stands for the cells xs, `list_get` returns the entry of the first cell with the
-- key, and NULL if there is none.
pub list_get-find :
    (l : ListT) (xs : Cells) (k : Text) → IsList l xs → list_get (some l) (some k) ≡ ret (find k xs)
unfolding list_get
list_get-find l xs k is =
    get_loop-find k l.heap (suc l.fresh) l.head xs is.chain (omega (arith, is.room))
