-- ===== src/NodeList/Dangling.antt =====
-- A list whose only node is its tail keeps the address of the node when it is removed.
use hash_map_storage_service.Prelude.{
  ℕ, ◌<◌, ◌≡◌, Option, none, some, [], ◌∷◌, ◌∙◌, false, ◌≢◌, arith,
}
use hash_map_storage_service.Prelude.Outcome.{fault, ◌>>=◌}
use hash_map_storage_service.Prelude.Text.{Text, text_eq, text_eq_refl}
use hash_map_storage_service.Data.{Data}
use hash_map_storage_service.Entry.{entry}
use hash_map_storage_service.NodeList.{ListT, list_add, list_remove}
use hash_map_storage_service.NodeList.Append.{Appended, list_add-first, list_add-dangling}
use hash_map_storage_service.NodeList.Cells.{Cell, cell, IsList}
use hash_map_storage_service.NodeList.Remove.{list_remove-head}

-- An empty list whose tail is a freed node: the first new key is stored, the next one is a fault.
pub list_add-twice_fault :
    (l : ListT) (t : ℕ) (k k' : Text) (v v' : Option Data)
    → IsList l []
    → l.tail ≡ some t
    → l.heap t ≡ none
    → t < l.fresh
    → text_eq k' k ≡ false
    → (list_add (some l) (some (entry (some k) v)) >>= λ r.
        list_add r.1 (some (entry (some k') v')))
      ≡ fault
list_add-twice_fault l t k k' v v' is tail gone lt ne =
    let (m, a, kept, same, fresh) = list_add-first k v l is in
    rw a.added (
      list_add-dangling k' v' m (cell l.fresh k v ∷ []) t a.is_list (ground arith) (filled m a)
        (kept ∙ tail) (same t lt ∙ gone) (omega arith))
  where
    filled : (m : ListT) → Appended l [] k v m → m.head ≢ none
    filled m a e = ground (arith, a.is_list.chain.0)

-- On a list whose only node is also its tail, a removal of the node's key and two additions of
-- different keys, whatever their values are, write to the freed node.
pub list_remove-add-twice_fault :
    (l : ListT) (x : Cell) (k k' : Text) (v v' : Option Data)
    → IsList l (x ∷ [])
    → l.tail ≡ some x.address
    → text_eq k' k ≡ false
    → (list_remove (some l) (some x.key) >>= λ r.
        list_add r.1 (some (entry (some k) v)) >>= λ r'. list_add r'.1 (some (entry (some k') v')))
      ≡ fault
list_remove-add-twice_fault l x k k' v v' is tail ne =
    let (m, b) = list_remove-head x.key l x [] is (text_eq_refl x.key) in
    rw b.removed (
      list_add-twice_fault m x.address k k' v v' b.is_list (b.tail ∙ tail) b.freed
        (omega (arith, b.fresh, is.below.0)) ne)
