-- ===== src/NodeList/Keys.antt =====
-- `list_create`, `list_size` and `list_get_keys` of source/list.c.
use hash_map_storage_service.Prelude.{
  ℕ, zero, suc, ◌<◌, ◌≡◌, refl, ◌≢◌, none, some, [], ◌∷◌, map, length, arith, true, false, ◌==◌, ap,
}
use hash_map_storage_service.Prelude.Outcome.{ret}
use hash_map_storage_service.NodeList.{
  Ptr, Heap, ListT, load, keys_loop, list_create, list_get_keys,
}
use hash_map_storage_service.NodeList.Cells.{Cells, Chain, IsList}

abbrev pub empty_list : ListT
empty_list = record { heap = λ _. none; fresh = 0; head = none; tail = none; size = 0 }

pub list_create-eq : list_create ≡ some empty_list
unfolding list_create
list_create-eq = refl

pub empty_list-IsList : IsList empty_list []
empty_list-IsList = record {
  chain = refl;
  count = refl;
  below = tt;
  room = omega arith;
  distinct = tt;
}

keys_loop-map :
    (h : Heap) (f : ℕ) (p : Ptr) (xs : Cells)
    → Chain h p xs
    → length xs < f
    → keys_loop h f p ≡ ret (map (λ c. c.key) xs)
unfolding keys_loop load
keys_loop-map h zero p xs c lt = absurd (omega arith)
keys_loop-map h (suc f) p [] c lt = rw c refl
keys_loop-map h (suc f) p (x ∷ xs) (e, (q, holds, out, c)) lt =
    rw (e, holds) (rw (keys_loop-map h f q xs c (omega arith)) refl)

-- The array of keys of a list that has nodes holds their keys in order, and NULL behind them; that
-- of an empty list holds nothing, not even the NULL.
pub list_get_keys-map :
    (l : ListT) (xs : Cells)
    → IsList l xs
    → (xs ≡ [] → list_get_keys (some l) ≡ ret (record { written = []; closed = false }))
      × (xs ≢ []
          → list_get_keys (some l) ≡ ret (record { written = map (λ c. c.key) xs; closed = true }))
unfolding list_get_keys
list_get_keys-map l [] is = (λ _. rw is.count refl, λ ne. absurd (ne refl))
list_get_keys-map l (x ∷ xs) is = (
  λ e. absurd (omega (arith, ap length e)),
  λ _.
      rw
        (
          some_nodes,
          keys_loop-map l.heap (suc l.fresh) l.head (x ∷ xs) is.chain (omega (arith, is.room)),
        )
        refl,
)
  where
    some_nodes : (l.size == 0) ≡ false
    some_nodes = ground (arith, is.count)
