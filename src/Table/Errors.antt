-- ===== src/Table/Errors.antt =====
-- The early returns of source/table.c, and the arguments at which `table_put` leaves its objects.
use hash_map_storage_service.Prelude.{
  ℕ, ◌<◌, ◌≤◌, ◌≡◌, refl, Option, none, some, true, false, arith, ◌==◌, length,
}
use hash_map_storage_service.Prelude.Int.{ℤ, pos, negsuc, minus_one, leb_ℤ}
use hash_map_storage_service.Prelude.Outcome.{ret, fault}
use hash_map_storage_service.Prelude.Text.{Text}
use hash_map_storage_service.Data.{Block, Data, data_of}
use hash_map_storage_service.Data.Dup.{data_dup_lem, data_dup-eq}
use hash_map_storage_service.Entry.{entry_create}
use hash_map_storage_service.Table.{
  TableT, hash, list_at, put_value, put_entry, table_put, table_get, table_del, table_size,
}

-- A NULL table or key: `table_put` and `table_del` return -1 and leave the table, `table_get`
-- returns NULL, and `table_size` returns -1. A value that is NULL, has no bytes or has a size that
-- is not positive is refused by `table_put` with -1, and the table is left as it is.
pub table_null_arguments :
    (t : Option TableT) (table : TableT) (key : Option Text) (k : Text) (value : Option Data)
    → (table_put none key value ≡ ret (minus_one, none))
      × (table_put t none value ≡ ret (minus_one, t))
      × (table_put (some table) (some k) none ≡ ret (minus_one, some table))
      × ((n : ℤ)
          → table_put (some table) (some k) (some (data_of n none)) ≡ ret (minus_one, some table))
      × ((n : ℤ) (src : Block)
          → leb_ℤ n (pos 0) ≡ true
          → table_put (some table) (some k) (some (data_of n (some src)))
            ≡ ret (minus_one, some table))
      × (table_get none key ≡ ret none)
      × (table_get t none ≡ ret none)
      × (table_del none key ≡ ret (minus_one, none))
      × (table_del t none ≡ ret (minus_one, t))
      × (table_size none ≡ minus_one)
unfolding table_put table_get table_del table_size
table_null_arguments t table key k value = (
  refl,
  no_key t,
  refl,
  λ n. rw (data_dup_lem.3 n) (ground arith),
  λ n src h. rw (data_dup_lem.4 n src h) (ground arith),
  refl,
  no_key_get t,
  refl,
  no_key_del t,
  refl,
)
  where
    no_key : (t : Option TableT) → table_put t none value ≡ ret (minus_one, t)
    no_key none = refl
    no_key (some t) = refl

    no_key_get : (t : Option TableT) → table_get t none ≡ ret none
    no_key_get none = refl
    no_key_get (some t) = refl

    no_key_del : (t : Option TableT) → table_del t none ≡ ret (minus_one, t)
    no_key_del none = refl
    no_key_del (some t) = refl

module _ (t : TableT) (k : Text) (n : ℕ) (src : Block) (positive : 0 < t.count_lists) where
  nonzero : (t.count_lists == 0) ≡ false
  nonzero = ground arith

  -- A put of a value of more than 16 bytes is a fault, whatever the table and the key are.
  pub table_put-overflow :
      16 < n → table_put (some t) (some k) (some (data_of (pos n) (some src))) ≡ fault
  unfolding table_put
  table_put-overflow large = rw (nonzero, data_dup_lem.1 n src large) refl

  -- A put, of a value of 1 to 16 bytes, and a delete of a key with a negative hash are faults: the index lies before the array.
  pub negative_hash :
      (j : ℕ)
      → hash k t.count_lists ≡ negsuc j
      → 0 < n
      → n ≤ 16
      → n ≤ length src
      → (table_put (some t) (some k) (some (data_of (pos n) (some src))) ≡ fault)
        × (table_del (some t) (some k) ≡ fault)
  unfolding table_put put_value put_entry table_del list_at entry_create
  negative_hash j e p q h =
      (rw (nonzero, data_dup-eq n src p q h) (rw e refl), rw (nonzero, e) refl)
