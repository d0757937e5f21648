-- ===== src/NodeList.antt =====
-- source/list.c, include/list-private.h: the singly linked list of a bucket.
--
-- The nodes of a list are a region of the heap of their own: no function keeps a pointer to a node
-- of another list. `malloc` returns an address that no node of the list has had before, and a
-- freed address holds nothing, so every use of a freed node is a fault. The address of a list
-- itself is `Option ListT`, with NULL as `none`.
pub mod Cells
pub mod Frame
pub mod Shape
pub mod Get
pub mod Add
pub mod Append
pub mod RemoveLoop
pub mod Remove
pub mod Keys
pub mod Dangling
pub mod Stale
pub mod Destroy
use hash_map_storage_service.Prelude.{
  ℕ, zero, suc, ◌+◌, ◌-◌, Bool, true, false, Option, none, some, List, [], ◌∷◌, ◌==◌, if◌then◌else◌,
  is_some,
}
use hash_map_storage_service.Prelude.Int.{ℤ, pos, minus_one}
use hash_map_storage_service.Prelude.Outcome.{Outcome, ret, fault, out_of_fuel, ◌>>=◌, deref}
use hash_map_storage_service.Prelude.Text.{Text, strcmp_eq}
use hash_map_storage_service.Entry.{Entry}

-- The address of a node; `none` is NULL.
abbrev pub Ptr : Type 0
Ptr = Option ℕ

-- `struct node_t`
pub record Node : Type 0 where
  pub entrada : Entry
  pub proximo : Ptr

abbrev pub node : Entry → Ptr → Node
node e p = record { entrada = e; proximo = p }

abbrev pub Heap : Type 0
Heap = ℕ → Option Node

-- `struct list_t`, the nodes it owns, and the next unused address.
pub record ListT : Type 0 where
  pub heap : Heap
  pub fresh : ℕ
  pub head : Ptr
  pub tail : Ptr
  pub size : ℕ

unfoldable pub write : Heap → ℕ → Option Node → Heap
write h a n b = if b == a then n else h b

unfoldable pub load : Heap → Ptr → Outcome Node
load h none = fault
load h (some a) = deref (h a)

-- `p->proximo = q`
unfoldable pub set_proximo : Heap → Ptr → Ptr → Outcome Heap
set_proximo h none q = fault
set_proximo h (some a) q = deref (h a) >>= λ n. ret (write h a (some (node n.entrada q)))

abbrev pub ptr_eq : Ptr → Ptr → Bool
ptr_eq none none = true
ptr_eq none (some b) = false
ptr_eq (some a) none = false
ptr_eq (some a) (some b) = a == b

unfoldable pub list_create : Option ListT
list_create = some (record { heap = λ _. none; fresh = 0; head = none; tail = none; size = 0 })

pub get_loop : Text → Heap → ℕ → Ptr → Outcome (Option Entry)
get_loop key h zero p = out_of_fuel
get_loop key h (suc f) none = ret none
get_loop key h (suc f) (some a) = do
  n ← load h (some a)
  same ← strcmp_eq (some key) n.entrada.key
  elim same [ true ↦ ret (some n.entrada) | false ↦ get_loop key h f n.proximo ]

-- Each loop has more fuel than the list ever had nodes.
unfoldable pub list_get : Option ListT → Option Text → Outcome (Option Entry)
unfolding get_loop load
list_get none key = ret none
list_get (some l) none = ret none
list_get (some l) (some key) = get_loop key l.heap (suc l.fresh) l.head

-- The first node with the key gets the new entry; -1 if there is none.
pub replace_loop : Entry → ListT → ℕ → Ptr → Outcome (ℤ × ListT)
replace_loop e l zero p = out_of_fuel
replace_loop e l (suc f) none = ret (minus_one, l)
replace_loop e l (suc f) (some a) = do
  n ← load l.heap (some a)
  same ← strcmp_eq n.entrada.key e.key
  elim same [
    | true ↦ ret (pos 0, record l { heap = write l.heap a (some (node e n.proximo)) })
    | false ↦ replace_loop e l f n.proximo
  ]

-- `malloc` of a node with the entry and no successor
pub alloc_node : Entry → ListT → ListT
alloc_node e l = record l { heap = write l.heap l.fresh (some (node e none)); fresh = suc l.fresh }

-- The new node a goes to the head, behind the head, or behind the tail.
pub link_node : ℕ → Ptr → Ptr → ListT → Outcome ListT
link_node a none tail l = ret (record l { head = some a; size = l.size + 1 })
link_node a (some h) none l = do
  heap ← set_proximo l.heap (some h) (some a)
  ret (record l { heap = heap; tail = some a; size = l.size + 1 })
link_node a (some h) (some t) l = do
  heap ← set_proximo l.heap (some t) (some a)
  ret (record l { heap = heap; tail = some a; size = l.size + 1 })

unfoldable pub list_add : Option ListT → Option Entry → Outcome (ℤ × Option ListT)
unfolding replace_loop alloc_node link_node load set_proximo
list_add none e = ret (minus_one, none)
list_add (some l) none = ret (minus_one, some l)
list_add (some l) (some e) = do
  found ← list_get (some l) e.key
  elim found [
    | some _ ↦ replace_loop e l (suc l.fresh) l.head >>= λ (r, l'). ret (r, some l')
    | none ↦ link_node l.fresh l.head l.tail (alloc_node e l) >>= λ l'. ret (pos 0, some l')
  ]

-- `prev->proximo = del->proximo`, and the node `del` is freed.
pub unlink : Ptr → Ptr → ListT → Outcome ListT
unlink prev none l = fault
unlink prev (some del) l = do
  n ← load l.heap (some del)
  heap ← set_proximo l.heap prev n.proximo
  ret (record l { heap = write heap del none; size = l.size - 1 })

-- The comparison behind the loop: `atual->proximo` is the tail.
pub remove_last : Text → ListT → Ptr → Outcome (ℤ × ListT)
remove_last key l atual = do
  n ← load l.heap atual
  last ← load l.heap n.proximo
  same ← strcmp_eq last.entrada.key (some key)
  elim same [
    | true ↦ unlink atual n.proximo l >>= λ l'. ret (pos 0, record l' { tail = atual })
    | false ↦ ret (minus_one, l)
  ]

pub remove_loop : Text → ListT → ℕ → Ptr → Outcome (ℤ × ListT)
remove_loop key l zero atual = out_of_fuel
remove_loop key l (suc f) none = remove_last key l none
remove_loop key l (suc f) (some a) = do
  n ← load l.heap (some a)
  elim (ptr_eq n.proximo l.tail) [
    | true ↦ remove_last key l (some a)
    | false ↦ do
      next ← load l.heap n.proximo
      same ← strcmp_eq next.entrada.key (some key)
      elim same [
        | true ↦ unlink (some a) n.proximo l >>= λ l'. ret (pos 0, l')
        | false ↦ remove_loop key l f n.proximo
      ]
  ]

-- The head is compared first, and goes with no look at the tail.
pub remove_from : Text → ListT → Ptr → Outcome (ℤ × ListT)
remove_from key l none = ret (minus_one, l)
remove_from key l (some a) = do
  n ← load l.heap (some a)
  same ← strcmp_eq n.entrada.key (some key)
  elim same [
    | true ↦
        ret (pos 0, record l { heap = write l.heap a none; head = n.proximo; size = l.size - 1 })
    | false ↦ remove_loop key l (suc l.fresh) (some a)
  ]

unfoldable pub list_remove : Option ListT → Option Text → Outcome (ℤ × Option ListT)
unfolding remove_from remove_loop remove_last unlink load set_proximo
list_remove none key = ret (minus_one, none)
list_remove (some l) none = ret (minus_one, some l)
list_remove (some l) (some key) = remove_from key l l.head >>= λ (r, l'). ret (r, some l')

unfoldable pub list_size : Option ListT → Outcome ℕ
list_size l = deref l >>= λ l'. ret l'.size

-- The elements of the array of keys; `strdup` reads each key, a fault at NULL.
pub keys_loop : Heap → ℕ → Ptr → Outcome (List Text)
keys_loop h zero p = out_of_fuel
keys_loop h (suc f) none = ret []
keys_loop h (suc f) (some a) = do
  n ← load h (some a)
  key ← deref n.entrada.key
  rest ← keys_loop h f n.proximo
  ret (key ∷ rest)

-- The array that the function returns: `written` elements, then NULL if `closed`. For a NULL or an
-- empty list the array has one element, which is indeterminate.
pub record KeyArray : Type 0 where
  pub written : List Text
  pub closed : Bool

unfoldable pub list_get_keys : Option ListT → Outcome KeyArray
unfolding keys_loop load
list_get_keys none = ret (record { written = []; closed = false })
list_get_keys (some l) =
    if l.size == 0
    then ret (record { written = []; closed = false })
    else keys_loop l.heap (suc l.fresh) l.head >>= λ keys.
        ret (record { written = keys; closed = true })
