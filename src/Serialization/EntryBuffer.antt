-- ===== src/Serialization/EntryBuffer.antt =====
-- `entry_to_buffer` and `buffer_to_entry` of source/serialization.c.
use hash_map_storage_service.Prelude.{
  ℕ, zero, suc, ◌+◌, ◌*◌, ◌<◌, ◌≤◌, ◌≡◌, refl, ◌∙◌, ap, sym, Option, none, some, List, [], ◌∷◌,
  ◌++◌, length, take, drop, false, arith, length-append, length-replicate, length-take_le,
  take-append, drop-append,
}
use hash_map_storage_service.Prelude.Int.{ℤ, pos, leb_ℤ}
use hash_map_storage_service.Prelude.Outcome.{Outcome, ret, fault, ◌>>=◌}
use hash_map_storage_service.Prelude.Text.{Text}
use hash_map_storage_service.Data.{Block, data_of, malloc, memcpy, int_bytes}
use hash_map_storage_service.Data.Dup.{data_dup-eq, length-drop}
use hash_map_storage_service.Entry.{entry}
use hash_map_storage_service.Message.{string_block}
use hash_map_storage_service.Serialization.{
  memcpy_at, key_to_buffer, entry_to_buffer, key_from_buffer, buffer_to_entry,
}
use hash_map_storage_service.Serialization.DataRoundTrip.{
  read_int-int_bytes, memcpy-fill, write_size, value_buffer, data_to_buffer-value_buffer,
  buffer_to_data-value_buffer,
}

length-string_block : (key : Text) → length (string_block key) ≡ suc (length key)
length-string_block [] = refl
length-string_block (c ∷ key) = ap suc (length-string_block key)

-- What is written behind the data.
abbrev pub key_buffer : Text → Block
key_buffer key = int_bytes (suc (length key)) ++ string_block key

-- Writing at the end of a block, into the rest.
memcpy_at-end :
    (buf dst src : Block) (n : ℕ) (out : Block)
    → memcpy dst src n ≡ ret out
    → memcpy_at (buf ++ dst) (length buf) src n ≡ ret (buf ++ out)
unfolding memcpy_at
memcpy_at-end buf dst src n out e = rw (drop-append buf dst, take-append buf dst) (rw e refl)

take_all {ℓ} : {A : Type ℓ} (n : ℕ) (xs : List A) → length xs ≡ n → take n xs ≡ xs
take_all zero [] e = refl
take_all zero (x ∷ xs) e = absurd (omega arith)
take_all (suc n) [] e = refl
take_all (suc n) (x ∷ xs) e = ap (λ zs. x ∷ zs) (take_all n xs (omega arith))

append_assoc {ℓ} : {A : Type ℓ} (xs ys zs : List A) → xs ++ (ys ++ zs) ≡ (xs ++ ys) ++ zs
append_assoc [] ys zs = refl
append_assoc (x ∷ xs) ys zs = ap (λ t. x ∷ t) (append_assoc xs ys zs)

write_key :
    (buf : Block) (key : Text)
    → memcpy_at
        (buf ++ (int_bytes (suc (length key)) ++ malloc (suc (length key))))
        (length buf + 4)
        (string_block key)
        (suc (length key))
      ≡ ret (buf ++ key_buffer key)
write_key buf key =
    let size = suc (length key) in
    let string_size = length-string_block key in
    let front : length (buf ++ int_bytes size) ≡ length buf + 4 =
      length-append buf (int_bytes size) in
    let filled : memcpy (malloc size) (string_block key) size ≡ ret (string_block key) =
      memcpy-fill size (malloc size) (string_block key) (length-replicate size none)
        (omega (arith, string_size))
      ∙ ap ret (take_all size (string_block key) string_size) in
    ap (λ b. memcpy_at b (length buf + 4) (string_block key) size)
      (append_assoc buf (int_bytes size) (malloc size))
    ∙ ap (λ k. memcpy_at ((buf ++ int_bytes size) ++ malloc size) k (string_block key) size)
        (sym front)
    ∙ memcpy_at-end (buf ++ int_bytes size) (malloc size) (string_block key) size (string_block key)
        filled
    ∙ ap ret (sym (append_assoc buf (int_bytes size) (string_block key)))

abbrev append_result : ℕ → Outcome Block → Outcome (ℤ × Option Block)
append_result n o = o >>= λ b. ret (pos n, some b)

key_to_buffer-key_buffer :
    (buf : Block) (key : Text)
    → key_to_buffer false (pos (length buf)) (some buf) (some key)
      ≡ ret (pos (length buf + suc (length key) + 4), some (buf ++ key_buffer key))
unfolding key_to_buffer
key_to_buffer-key_buffer buf key =
    let size = suc (length key) in
    rw
      (memcpy_at-end buf (malloc (size + 4)) (int_bytes size) 4 (int_bytes size ++ malloc size)
        (write_size size))
      (ap (append_result (length buf + size + 4)) (write_key buf key))

memcpy-short : (dst src : Block) (n : ℕ) → length src < n → memcpy dst src n ≡ fault
unfolding memcpy
memcpy-short dst src n lt = ground arith

-- A short key and a value of 1 to 16 bytes go to a buffer from which no entry is read back: as many
-- bytes are read for the key as twice the size of the value and four, which is more than the buffer
-- holds.
pub buffer_to_entry-entry_to_buffer_fault :
    (n : ℕ) (src : Block) (key : Text)
    → 0 < n
    → n ≤ 16
    → n ≤ length src
    → length key + 1 < 2 * n + 4
    → (buf : Block) × (entry_to_buffer false
          (some (entry (some key) (some (data_of (pos n) (some src)))))
        ≡ ret (pos (length buf), some buf))
      × (buffer_to_entry (some buf) (pos (length buf)) ≡ fault)
unfolding entry_to_buffer buffer_to_entry key_from_buffer
buffer_to_entry-entry_to_buffer_fault n src key positive small wide short =
    let value = value_buffer n src in
    let width : length (value_buffer n src) ≡ n + 4 = omega (arith, length-take_le n src wide) in
    let size : length (value_buffer n src ++ key_buffer key) ≡ n + 4 + suc (length key) + 4 =
      omega (
        arith,
        length-append (value_buffer n src) (key_buffer key),
        width,
        length-string_block key,
      ) in
    let over : length (drop (4 + n + 4) (value_buffer n src ++ key_buffer key)) < n + (4 + n) =
      omega (arith, size, short, length-drop (4 + n + 4) (value_buffer n src ++ key_buffer key)) in
    let full : leb_ℤ (pos (length (value ++ key_buffer key))) (pos 0) ≡ false =
      ground (arith, size) in
    let written : key_to_buffer false (pos (n + 4)) (some value) (some key)
        ≡ ret (pos (length (value ++ key_buffer key)), some (value ++ key_buffer key)) =
      ap (λ k. key_to_buffer false (pos k) (some value) (some key)) (sym width)
      ∙ key_to_buffer-key_buffer value key
      ∙ ap (λ k. ret (pos k, some (value ++ key_buffer key))) (omega (arith, size, width)) in
    (
      value ++ key_buffer key,
      rw (data_to_buffer-value_buffer n src wide (omega arith)) written,
      rw full (
          rw
            (buffer_to_data-value_buffer n (length (value ++ key_buffer key)) src (key_buffer key)
              positive (omega (arith, size)) (omega arith) wide)
            (rw
              (data_dup-eq n (take n src) positive small (omega (arith, length-take_le n src wide)))
              (rw (read_int-int_bytes n (take n src ++ key_buffer key) (omega arith)) (
                rw
                  (memcpy-short (malloc (n + (4 + n))) (drop (4 + n + 4) (value ++ key_buffer key))
                    (n + (4 + n)) over)
                  refl)))),
    )
