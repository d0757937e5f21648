-- ===== src/NodeList/Destroy.antt =====
-- `list_destroy` and `list_free_keys` of source/list.c.
--
-- An entry, its key and its value are values that go with their node.
use hash_map_storage_service.Prelude.{
  ℕ, zero, suc, ◌<◌, ◌≡◌, refl, ◌≢◌, ◌∙◌, Bool, true, false, Option, none, some, List, [], ◌∷◌, map,
  length, arith,
}
use hash_map_storage_service.Prelude.Outcome.{Outcome, ret, fault, out_of_fuel, ◌>>=◌}
use hash_map_storage_service.Prelude.Text.{Text}
use hash_map_storage_service.NodeList.{Ptr, Heap, ListT, KeyArray, write, load, list_get_keys}
use hash_map_storage_service.NodeList.Cells.{Cells, Chain, IsList, has}
use hash_map_storage_service.NodeList.Frame.{Chain-frame}
use hash_map_storage_service.NodeList.Keys.{list_get_keys-map}

destroy_loop : Heap → ℕ → Ptr → Outcome Heap
destroy_loop h zero p = out_of_fuel
destroy_loop h (suc f) none = ret h
destroy_loop h (suc f) (some a) = load h (some a) >>= λ n. destroy_loop (write h a none) f n.proximo

-- The nodes that are left.
unfoldable pub list_destroy : Option ListT → Outcome Heap
unfolding destroy_loop
list_destroy none = fault
list_destroy (some l) = destroy_loop l.heap (suc l.fresh) l.head

-- The strings of an array that are freed, with the NULL behind them if it is closed.
unfoldable pub free_keys_loop : Bool → List Text → Outcome (List Text)
free_keys_loop true [] = ret []
free_keys_loop false [] = fault
free_keys_loop closed (k ∷ keys) = free_keys_loop closed keys >>= λ freed. ret (k ∷ freed)

unfoldable pub list_free_keys : Option KeyArray → Outcome (List Text)
list_free_keys none = fault
list_free_keys (some keys) = free_keys_loop keys.closed keys.written

pub free_keys_loop-closed : (keys : List Text) → free_keys_loop true keys ≡ ret keys
unfolding free_keys_loop
free_keys_loop-closed [] = refl
free_keys_loop-closed (k ∷ keys) = rw (free_keys_loop-closed keys) refl

-- The heap g is h without the nodes of the cells.
pub record Without (h : Heap) (xs : Cells) (g : Heap) : Type 0 where
  pub gone : (a : ℕ) → has a xs ≡ true → g a ≡ none
  pub kept : (a : ℕ) → has a xs ≡ false → g a ≡ h a

destroy_loop-Without :
    (h : Heap) (f : ℕ) (p : Ptr) (xs : Cells)
    → Chain h p xs
    → length xs < f
    → (g : Heap) × (destroy_loop h f p ≡ ret g) × Without h xs g
unfolding destroy_loop load
destroy_loop-Without h zero p xs c lt = absurd (omega arith)
destroy_loop-Without h (suc f) p [] c lt =
    (h, rw c refl, record { gone = λ a e. absurd (ground arith); kept = λ a e. refl })
destroy_loop-Without h (suc f) p (x ∷ xs) (e, (q, holds, out, c)) lt =
    let (g, run, w) =
      destroy_loop-Without (write h x.address none) f q xs (rest q out c) (omega arith) in
    (g, rw (e, holds) run, record { gone = gone g w; kept = kept g w })
  where
    rest : (q : Ptr) → has x.address xs ≡ false → Chain h q xs → Chain (write h x.address none) q xs
    rest q out c =
        Chain-frame h (write h x.address none) q xs c (λ a m. unfold write in ground arith)

    gone :
        (g : Heap)
        → Without (write h x.address none) xs g
        → (a : ℕ) → has a (x ∷ xs) ≡ true
        → g a ≡ none
    gone g w a e = at (has a xs) refl
      where
        at : (b : Bool) → has a xs ≡ b → g a ≡ none
        at true e' = w.gone a e'
        at false e' = w.kept a e' ∙ (unfold write in ground arith)

    kept :
        (g : Heap)
        → Without (write h x.address none) xs g
        → (a : ℕ) → has a (x ∷ xs) ≡ false
        → g a ≡ h a
    kept g w a e = w.kept a (ground arith) ∙ (unfold write in ground arith)

-- `list_destroy` of a list returns, whatever its tail is, and frees the nodes of the list and no
-- other; of NULL it is a fault.
pub list_destroy-Without :
    ((l : ListT) (xs : Cells)
      → IsList l xs
      → (g : Heap) × (list_destroy (some l) ≡ ret g) × Without l.heap xs g)
    × (list_destroy none ≡ fault)
unfolding list_destroy
list_destroy-Without = (
  λ l xs is. destroy_loop-Without l.heap (suc l.fresh) l.head xs is.chain (omega (arith, is.room)),
  refl,
)

-- Freeing the keys of a list that has nodes frees them all; freeing those of an empty list reads
-- an element that was never set.
pub list_free_keys-list_get_keys :
    (l : ListT) (xs : Cells)
    → IsList l xs
    → (xs ≡ [] → (list_get_keys (some l) >>= λ keys. list_free_keys (some keys)) ≡ fault)
      × (xs ≢ []
          → (list_get_keys (some l) >>= λ keys. list_free_keys (some keys))
            ≡ ret (map (λ c. c.key) xs))
unfolding list_free_keys free_keys_loop
list_free_keys-list_get_keys l xs is =
    let (empty, filled) = list_get_keys-map l xs is in
    (λ e. rw (empty e) refl, λ e. rw (filled e) (free_keys_loop-closed (map (λ c. c.key) xs)))
