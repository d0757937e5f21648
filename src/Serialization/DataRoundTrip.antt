-- ===== src/Serialization/DataRoundTrip.antt =====
-- `data_to_buffer` and `buffer_to_data` of source/serialization.c.
use hash_map_storage_service.Prelude.{
  ℕ, zero, suc, ◌+◌, ◌*◌, ◌/◌, ◌%◌, ◌<◌, ◌≤◌, ◌≡◌, refl, ◌∙◌, ap, none, some, List, [], ◌∷◌, ◌++◌,
  length, take, drop, leb, ◌&&◌, true, false, arith,
}
use hash_map_storage_service.Prelude.Int.{pos, leb_ℤ}
use hash_map_storage_service.Prelude.Outcome.{ret}
use hash_map_storage_service.Data.{Block, data_of, malloc, memcpy, data_create2, int_bytes}
use hash_map_storage_service.Prelude.{
  length-replicate, length-take_le, length-append, take-take_append, sym,
}
use hash_map_storage_service.Serialization.{
  memcpy_at, value_to_buffer, data_to_buffer, read_int, copy_out, buffer_to_data,
}

pub read_int-int_bytes :
    (n : ℕ) (b : Block) → n < 2147483648 → read_int (int_bytes n ++ b) ≡ ret (pos n)
unfolding read_int
read_int-int_bytes n b lt =
    let whole : n % 256
          + 256 * (n / 256 % 256)
          + 65536 * (n / 65536 % 256)
          + 16777216 * (n / 16777216 % 256)
        ≡ n =
      omega arith in
    rw whole (ground arith)

drop_all {ℓ} : {A : Type ℓ} (n : ℕ) (xs : List A) → length xs ≡ n → drop n xs ≡ []
drop_all zero [] e = refl
drop_all zero (x ∷ xs) e = absurd (omega arith)
drop_all (suc n) [] e = refl
drop_all (suc n) (x ∷ xs) e = drop_all n xs (omega arith)

append_nil {ℓ} : {A : Type ℓ} (xs : List A) → xs ++ [] ≡ xs
append_nil [] = refl
append_nil (x ∷ xs) = ap (λ zs. x ∷ zs) (append_nil xs)

-- A whole block is overwritten.
pub memcpy-fill :
    (n : ℕ) (dst src : Block)
    → length dst ≡ n
    → n ≤ length src
    → memcpy dst src n ≡ ret (take n src)
unfolding memcpy
memcpy-fill n dst src e le =
    let fits : (leb n (length dst) && leb n (length src)) ≡ true = ground arith in
    rw (fits, drop_all n dst e) (ap ret (append_nil (take n src)))

pub write_size : (n : ℕ) → memcpy (malloc (n + 4)) (int_bytes n) 4 ≡ ret (int_bytes n ++ malloc n)
unfolding memcpy
write_size n = let four : n + 4 ≡ suc (suc (suc (suc n))) = omega arith in rw four (ground arith)

abbrev pub value_buffer : ℕ → Block → Block
value_buffer n src = int_bytes n ++ take n src

pub data_to_buffer-value_buffer :
    (n : ℕ) (src : Block)
    → n ≤ length src
    → n < 2147483644
    → data_to_buffer (some (data_of (pos n) (some src)))
      ≡ ret (pos (n + 4), some (value_buffer n src))
unfolding data_to_buffer value_to_buffer memcpy_at
data_to_buffer-value_buffer n src wide small =
    let fits : leb 2147483644 n ≡ false = ground arith in
    rw fits
      (rw (write_size n) (rw (memcpy-fill n (malloc n) src (length-replicate n none) wide) refl))

pub buffer_to_data-value_buffer :
    (n size : ℕ) (src rest : Block)
    → 0 < n
    → 0 < size
    → n < 2147483648
    → n ≤ length src
    → buffer_to_data (some (value_buffer n src ++ rest)) (pos size)
      ≡ ret (some (data_of (pos n) (some (take n src))))
unfolding buffer_to_data copy_out data_create2
buffer_to_data-value_buffer n size src rest positive filled small wide =
    let room : n ≤ length (take n src ++ rest) =
      omega (arith, length-append (take n src) rest, length-take_le n src wide) in
    let full : leb_ℤ (pos size) (pos 0) ≡ false = ground arith in
    let some_bytes : leb_ℤ (pos n) (pos 0) ≡ false = ground arith in
    rw (full, read_int-int_bytes n (take n src ++ rest) small)
      (rw (memcpy-fill n (malloc n) (take n src ++ rest) (length-replicate n none) room)
        (rw (some_bytes, take-take_append n src rest wide) refl))

-- A value of at least one byte, and fewer than 2^31 - 4, goes to a buffer of its size and four bytes
-- more, from which a value with the same bytes is read back.
pub buffer_to_data-data_to_buffer :
    (n : ℕ) (src : Block)
    → 0 < n
    → n < 2147483644
    → n ≤ length src
    → (buf : Block) × (data_to_buffer (some (data_of (pos n) (some src)))
        ≡ ret (pos (length buf), some buf))
      × (buffer_to_data (some buf) (pos (length buf))
          ≡ ret (some (data_of (pos n) (some (take n src)))))
buffer_to_data-data_to_buffer n src positive small wide =
    let size : length (value_buffer n src) ≡ n + 4 = omega (arith, length-take_le n src wide) in
    (
      value_buffer n src,
      rw size (data_to_buffer-value_buffer n src wide small),
      rw size (
          ap (λ b. buffer_to_data (some b) (pos (n + 4))) (sym (append_nil (value_buffer n src)))
          ∙ buffer_to_data-value_buffer n (n + 4) src [] positive (omega arith) (omega arith) wide),
    )
