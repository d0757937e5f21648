-- ===== src/Table.antt =====
-- source/table.c, include/table-private.h: the hash table, an array of lists.
--
-- The number of lists is an int that is positive in every table; it is a natural number here, and
-- so is the number of entries. `malloc` succeeds.
pub mod Hash
pub mod Rows
pub mod View
pub mod Get
pub mod Sound
pub mod Create
pub mod Write
pub mod PutRow
pub mod Put
pub mod Delete
pub mod Keys
pub mod Errors
pub mod Dangling
pub mod Destroy
use hash_map_storage_service.Prelude.{
  ℕ, zero, suc, ◌+◌, ◌-◌, Bool, true, false, ◌||◌, Option, none, some, List, [], ◌∷◌, ◌++◌, length,
  get_elem?, set, replicate, ltb, ◌==◌, if◌then◌else◌,
}
use hash_map_storage_service.Prelude.Int.{
  ℤ, pos, negsuc, pos_part, minus_one, add_int, rem, sub_ℕ, leb_ℤ,
}
use hash_map_storage_service.Prelude.Outcome.{Outcome, ret, fault, ◌>>=◌, deref}
use hash_map_storage_service.Prelude.Text.{Text}
use hash_map_storage_service.Data.{Data, data_dup}
use hash_map_storage_service.Entry.{Entry, entry_create}
use hash_map_storage_service.NodeList.{
  ListT, KeyArray, list_create, list_get, list_add, list_remove, list_size, list_get_keys,
}

abbrev pub Lists : Type 0
Lists = List (Option ListT)

-- `struct table_t`
pub record TableT : Type 0 where
  pub list : Lists
  pub size : ℕ
  pub count_lists : ℕ

unfoldable pub table_create : ℤ → Option TableT
table_create n =
    if leb_ℤ n (pos 0)
    then none
    else some
        (record { list = replicate (pos_part n) list_create; size = 0; count_lists = pos_part n })

-- `(int) key[i]`: char is signed, so a byte from 128 on is negative.
abbrev pub char_value : ℕ → ℤ
char_value c = if ltb c 128 then pos c else sub_ℕ c 256

pub hash_count : Text → ℤ → ℤ
hash_count [] count = count
hash_count (c ∷ key) count = hash_count key (add_int count (char_value c))

unfoldable pub hash : Text → ℕ → ℤ
unfolding hash_count
hash key size = rem (hash_count key (pos 0)) size

-- `table->list[i]`, a fault outside the array
unfoldable pub list_at : Lists → ℤ → Outcome (Option ListT)
list_at ls (pos i) = deref (get_elem? ls i)
list_at ls (negsuc i) = fault

-- What a list function leaves in `table->list[i]`.
pub store_list : TableT → ℤ → Option ListT → TableT
store_list t i l = record t { list = set t.list (pos_part i) l }

put_entry : TableT → Text → Option Entry → Outcome (ℤ × Option TableT)
put_entry t key none = ret (minus_one, some t)
put_entry t key (some e) = do
  let i = hash key t.count_lists
  l ← list_at t.list i
  found ← list_get l (some key)
  elim found [
    | some _ ↦ do
      (_, l') ← list_remove l (some key)
      (_, l'') ← list_add l' (some e)
      ret (pos 0, some (store_list t i l''))
    | none ↦ do
      (_, l') ← list_add l (some e)
      ret (pos 0, some (record (store_list t i l') { size = t.size + 1 }))
  ]

put_value : TableT → Text → Option Data → Outcome (ℤ × Option TableT)
unfolding put_entry
put_value t key none = ret (minus_one, some t)
put_value t key (some d) = put_entry t key (entry_create (some key) (some d))

unfoldable pub table_put : Option TableT → Option Text → Option Data → Outcome (ℤ × Option TableT)
unfolding put_value store_list
table_put none key value = ret (minus_one, none)
table_put (some t) none value = ret (minus_one, some t)
table_put (some t) (some key) none = ret (minus_one, some t)
table_put (some t) (some key) (some value) =
    if t.count_lists == 0
    then ret (minus_one, some t)
    else data_dup (some value) >>= λ new_value. put_value t key new_value

-- The lists from `table->list[i]` on, with the rounds left; a fault behind the array.
get_loop : Text → ℕ → Lists → Outcome (Option Data)
get_loop key zero ls = ret none
get_loop key (suc n) [] = fault
get_loop key (suc n) (l ∷ ls) = do
  found ← list_get l (some key)
  elim found [ some e ↦ data_dup e.value | none ↦ get_loop key n ls ]

unfoldable pub table_get : Option TableT → Option Text → Outcome (Option Data)
unfolding get_loop
table_get none key = ret none
table_get (some t) none = ret none
table_get (some t) (some key) =
    if t.count_lists == 0 then ret none else get_loop key t.count_lists t.list

unfoldable pub table_del : Option TableT → Option Text → Outcome (ℤ × Option TableT)
unfolding store_list
table_del none key = ret (minus_one, none)
table_del (some t) none = ret (minus_one, some t)
table_del (some t) (some key) = if t.count_lists == 0 then ret (minus_one, some t) else do
  let i = hash key t.count_lists
  l ← list_at t.list i
  found ← list_get l (some key)
  elim found [
    | none ↦ ret (minus_one, some t)
    | some _ ↦ do
      (_, l') ← list_remove l (some key)
      ret (pos 0, some (record (store_list t i l') { size = t.size - 1 }))
  ]

unfoldable pub table_size : Option TableT → ℤ
table_size none = minus_one
table_size (some t) = pos t.size

-- The inner loop: n elements of the array of a list, which must have been written, go behind those
-- of an array of `room` elements.
copy_keys : ℕ → ℕ → List Text → List Text → Outcome (List Text)
copy_keys room zero keys out = ret out
copy_keys room (suc n) [] out = fault
copy_keys room (suc n) (k ∷ keys) out =
    if ltb (length out) room then copy_keys room n keys (out ++ k ∷ []) else fault

keys_loop : ℕ → ℕ → Lists → List Text → Outcome (List Text)
unfolding copy_keys
keys_loop room zero ls out = ret out
keys_loop room (suc n) [] out = fault
keys_loop room (suc n) (l ∷ ls) out = do
  keys ← list_get_keys l
  size ← list_size l
  out' ← copy_keys room size keys.written out
  keys_loop room n ls out'

-- The keys before the NULL. The size of the array is read from the table before the table is
-- compared with NULL.
unfoldable pub table_get_keys : Option TableT → Outcome (List Text)
unfolding keys_loop
table_get_keys none = fault
table_get_keys (some t) = do
  out ← keys_loop (t.size + 1) t.count_lists t.list []
  if ltb (length out) (t.size + 1) then ret out else fault
