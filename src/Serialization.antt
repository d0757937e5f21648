-- ===== src/Serialization.antt =====
-- source/serialization.c: values and entries as buffers.
--
-- A buffer is a block of its size; the pointer to which it is stored is not NULL.
pub mod DataRoundTrip
pub mod EntryBuffer
use hash_map_storage_service.Prelude.{
  ℕ, zero, suc, ◌+◌, ◌*◌, Bool, true, false, Option, none, some, List, [], ◌∷◌, ◌++◌, length, take,
  drop, ltb, leb, if◌then◌else◌,
}
use hash_map_storage_service.Prelude.Int.{ℤ, pos, negsuc, pos_part, minus_one, leb_ℤ, sub_ℕ}
use hash_map_storage_service.Prelude.Outcome.{Outcome, ret, fault, ◌>>=◌, deref}
use hash_map_storage_service.Data.{
  Block, Data, malloc, memcpy, data_create2, data_dup, int_bytes, c_string,
}
use hash_map_storage_service.Prelude.Text.{Text}
use hash_map_storage_service.Entry.{Entry, entry_create}
use hash_map_storage_service.Message.{string_block}

-- `memcpy(dst + n, src, size)`
unfoldable pub memcpy_at : Block → ℕ → Block → ℕ → Outcome Block
memcpy_at dst n src size = memcpy (drop n dst) src size >>= λ rest. ret (take n dst ++ rest)

-- The result, and the new buffer. From 2^31 - 4 on the size of the buffer wraps around to a negative
-- int, and so it is below -4; `malloc` then gives NULL. From -4 to -1 the size itself does not fit.
value_to_buffer : ℤ → Option Block → Outcome (ℤ × Option Block)
value_to_buffer (negsuc n) bytes = if leb 4 n then ret (minus_one, none) else fault
value_to_buffer (pos n) bytes = if leb 2147483644 n then ret (minus_one, none) else do
  buf ← memcpy (malloc (n + 4)) (int_bytes n) 4
  src ← deref bytes
  buf' ← memcpy_at buf 4 src n
  ret (pos (n + 4), some buf')

unfoldable pub data_to_buffer : Option Data → Outcome (ℤ × Option Block)
unfolding value_to_buffer
data_to_buffer none = ret (minus_one, none)
data_to_buffer (some d) = value_to_buffer d.datasize d.bytes

-- `*(int *) buf`, of four bytes that were written
unfoldable pub read_int : Block → Outcome ℤ
read_int (some a ∷ some b ∷ some c ∷ some d ∷ buf) =
    let n = a + 256 * b + 65536 * c + 16777216 * d in
    ret (if ltb n 2147483648 then pos n else sub_ℕ n 4294967296)
read_int buf = fault

-- The block of t bytes; the size that a negative t becomes is too large for any block.
copy_out : Block → ℤ → Outcome Block
copy_out buf (negsuc t) = fault
copy_out buf (pos t) = memcpy (malloc t) buf t

unfoldable pub buffer_to_data : Option Block → ℤ → Outcome (Option Data)
unfolding copy_out
buffer_to_data none size = ret none
buffer_to_data (some buf) size =
    if leb_ℤ size (pos 0)
    then ret none
    else do t ← read_int buf; d ← copy_out (drop 4 buf) t; ret (data_create2 t (some d))

-- The key behind the data: its size with the NUL, and its bytes. The result of `realloc` is dropped:
-- if the buffer was moved, the writes go to a freed object.
key_to_buffer : Bool → ℤ → Option Block → Option Text → Outcome (ℤ × Option Block)
key_to_buffer moved size none key = ret (minus_one, none)
key_to_buffer moved size (some buf) none = fault
key_to_buffer moved size (some buf) (some key) = if moved then fault else do
  let data_size = pos_part size
  let key_size = suc (length key)
  buf₁ ← memcpy_at (buf ++ malloc (key_size + 4)) data_size (int_bytes key_size) 4
  buf₂ ← memcpy_at buf₁ (data_size + 4) (string_block key) key_size
  ret (pos (data_size + key_size + 4), some buf₂)

unfoldable pub entry_to_buffer : Bool → Option Entry → Outcome (ℤ × Option Block)
unfolding key_to_buffer
entry_to_buffer moved none = ret (minus_one, none)
entry_to_buffer moved (some e) = data_to_buffer e.value >>= λ r. key_to_buffer moved r.0 r.1 e.key

-- The size that is read for the key is `*(int *) entry_buf + espaco`, the sum of the size of the
-- data and its space. The key is taken as a C string at once.
key_from_buffer : Block → Option Data → Outcome (Option Entry)
key_from_buffer buf none = ret none
key_from_buffer buf (some d) = do
  let espaco = 4 + pos_part d.datasize
  t ← read_int buf
  key ← memcpy (malloc (pos_part t + espaco)) (drop (espaco + 4) buf) (pos_part t + espaco)
  text ← c_string key
  ret (entry_create (some text) (some d))

unfoldable pub buffer_to_entry : Option Block → ℤ → Outcome (Option Entry)
unfolding key_from_buffer
buffer_to_entry none size = ret none
buffer_to_entry (some buf) size =
    if leb_ℤ size (pos 0)
    then ret none
    else do d ← buffer_to_data (some buf) size; d' ← data_dup d; key_from_buffer buf d'
