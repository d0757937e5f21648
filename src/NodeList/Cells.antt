-- ===== src/NodeList/Cells.antt =====
-- What a list of source/list.c stands for: its cells in order, each an address, a key and a value.
use hash_map_storage_service.Prelude.{
  ℕ, ◌≤◌, ◌<◌, ◌≡◌, ◌⊎◌, Bool, false, ◌||◌, Option, none, some, List, [], ◌∷◌, length, ◌==◌,
  if◌then◌else◌,
}
use hash_map_storage_service.Prelude.Text.{Text, text_eq}
use hash_map_storage_service.Data.{Data}
use hash_map_storage_service.Entry.{Entry, entry}
use hash_map_storage_service.NodeList.{Ptr, node, Heap, ListT}

pub record Cell : Type 0 where
  pub address : ℕ
  pub key : Text
  pub value : Option Data

abbrev pub Cells : Type 0
Cells = List Cell

abbrev pub cell : ℕ → Text → Option Data → Cell
cell a k v = record { address = a; key = k; value = v }

abbrev pub entry_of : Cell → Entry
entry_of c = entry (some c.key) c.value

-- The address a is one of the cells'.
abbrev pub has : ℕ → Cells → Bool
has a [] = false
has a (c ∷ xs) = (a == c.address) || has a xs

abbrev pub has_key : Text → Cells → Bool
has_key k [] = false
has_key k (c ∷ xs) = text_eq k c.key || has_key k xs

-- The pointers lead from p through nodes that hold the cells, at distinct addresses, to NULL.
abbrev pub Chain : Heap → Ptr → Cells → Type 0
Chain h p [] = p ≡ none
Chain h p (c ∷ xs) =
    (p ≡ some c.address)
    × ((q : Ptr) × (h c.address ≡ some (node (entry_of c) q))
        × (has c.address xs ≡ false)
        × Chain h q xs)

-- No key occurs twice.
abbrev pub Distinct : Cells → Type 0
Distinct [] = Unit
Distinct (c ∷ xs) = (has_key c.key xs ≡ false) × Distinct xs

abbrev pub Below : ℕ → Cells → Type 0
Below n [] = Unit
Below n (c ∷ xs) = (c.address < n) × Below n xs

abbrev pub last : Cells → Ptr
last [] = none
last (c ∷ []) = some c.address
last (c ∷ d ∷ xs) = last (d ∷ xs)

pub record IsList (l : ListT) (xs : Cells) : Type 0 where
  pub chain : Chain l.heap l.head xs
  pub count : l.size ≡ length xs
  pub below : Below l.fresh xs
  pub room : length xs ≤ l.fresh
  pub distinct : Distinct xs

-- The tail is the last node, but may be NULL on a list of at most one.
abbrev pub TailOk : Ptr → Cells → Type 0
TailOk t xs = (t ≡ last xs) ⊎ ((length xs ≤ 1) × (t ≡ none))

-- The abstract operations: look up, replace in place, delete.
unfoldable pub find : Text → Cells → Option Entry
find k [] = none
find k (c ∷ xs) = if text_eq k c.key then some (entry_of c) else find k xs

unfoldable pub assign : Text → Option Data → Cells → Cells
assign k v [] = []
assign k v (c ∷ xs) = if text_eq k c.key then cell c.address k v ∷ xs else c ∷ assign k v xs

unfoldable pub erase : Text → Cells → Cells
erase k [] = []
erase k (c ∷ xs) = if text_eq k c.key then xs else c ∷ erase k xs
