-- ===== src/Data.antt =====
-- source/data.c, include/data.h: blocks of bytes with their size.
pub mod Dup
use hash_map_storage_service.Prelude.{
  ℕ, zero, suc, ◌+◌, ◌/◌, ◌%◌, Bool, true, false, ◌&&◌, Option, none, some, List, [], ◌∷◌, ◌++◌,
  length, take, drop, replicate, leb, ◌==◌, if◌then◌else◌,
}
use hash_map_storage_service.Prelude.Int.{ℤ, pos, pos_part, leb_ℤ}
use hash_map_storage_service.Prelude.Outcome.{Outcome, ret, fault, ◌>>=◌}
use hash_map_storage_service.Prelude.Text.{Text}

-- A byte of an allocated object; `none` is one whose value the model does not know: an indeterminate
-- one, or one of a pointer.
abbrev pub Byte : Type 0
Byte = Option ℕ

abbrev pub Block : Type 0
Block = List Byte

-- `struct data_t`; the field data is NULL or points to a block, whose length is its capacity.
pub record Data : Type 0 where
  pub datasize : ℤ
  pub bytes : Option Block

abbrev pub data_of : ℤ → Option Block → Data
data_of n b = record { datasize = n; bytes = b }

-- `malloc(n)`
abbrev pub malloc : ℕ → Block
malloc n = replicate n none

-- `memcpy(dst, src, n)`, a fault where one of the blocks is shorter than n
unfoldable pub memcpy : Block → Block → ℕ → Outcome Block
memcpy dst src n =
    if leb n (length dst) && leb n (length src) then ret (take n src ++ drop n dst) else fault

unfoldable pub data_create : ℤ → Option Data
data_create size =
    if leb_ℤ size (pos 0) then none else some (data_of size (some (malloc (pos_part size))))

unfoldable pub data_create2 : ℤ → Option Block → Option Data
data_create2 size none = none
data_create2 size (some b) = if leb_ℤ size (pos 0) then none else some (data_of size (some b))

-- An int of four bytes, the least significant first.
abbrev pub int_bytes : ℕ → Block
int_bytes n =
    some (n % 256) ∷ some (n / 256 % 256) ∷ some (n / 65536 % 256) ∷ some (n / 16777216 % 256) ∷ []

-- The sixteen bytes of a `struct data_t` itself: the size, four bytes of padding, which are
-- indeterminate, and the pointer to the block, whose eight bytes are set to an address that the model
-- does not have.
abbrev pub object_bytes : Data → Block
object_bytes d = int_bytes (pos_part d.datasize) ++ replicate 12 none

-- The copy goes to the new `struct data_t`, not to the block that `data_create` made for it.
copy_into : ℤ → Block → Option Data → Outcome (Option Data)
copy_into size src none = ret none
copy_into size src (some inner) = do
  block ← memcpy (object_bytes inner) src (pos_part size)
  ret (some (data_of size (some block)))

dup_block : ℤ → Option Block → Outcome (Option Data)
unfolding copy_into
dup_block size none = ret none
dup_block size (some src) =
    if leb_ℤ size (pos 0) then ret none else copy_into size src (data_create size)

unfoldable pub data_dup : Option Data → Outcome (Option Data)
unfolding dup_block
data_dup none = ret none
data_dup (some d) = dup_block d.datasize d.bytes

-- What a function that takes a C string reads at the start of a block; a byte of a pointer is not
-- read on, and counts as a fault, so that statements on such faults leave these blocks out.
unfoldable pub c_string : Block → Outcome Text
c_string [] = fault
c_string (none ∷ b) = fault
c_string (some zero ∷ b) = ret []
c_string (some (suc c) ∷ b) = c_string b >>= λ s. ret (suc c ∷ s)
