-- ===== src/Socket.antt =====
-- `write_all` and `read_all` of source/message.c.
--
-- The kernel is a parameter: the list of what the calls of `write` or `read` give, in order. Where
-- the list ends before the loop does, the call waits for ever. An error other than EINTR is a
-- negative result.
pub mod WriteAll
pub mod ReadAll
pub mod EndOfFile
use hash_map_storage_service.Prelude.{
  ℕ, zero, suc, ◌-◌, Bool, true, false, ◌||◌, List, [], ◌∷◌, ◌++◌, length, take, drop, leb,
}
use hash_map_storage_service.Prelude.Int.{ℤ, pos, negsuc}
use hash_map_storage_service.Prelude.Outcome.{Outcome, ret, fault, out_of_fuel, ◌>>=◌}
use hash_map_storage_service.Data.{Block}

-- One call: interrupted, failed with -(e + 1), or what it gave, which is a count of bytes taken for
-- `write` and the bytes that came for `read`, none at the end of the file.
pub data Call (A : Type 0) : Type 0 where
  interrupted : Call A
  failed : ℕ → Call A
  gave : A → Call A

abbrev pub Writes : Type 0
Writes = List (Call ℕ)

abbrev pub Reads : Type 0
Reads = List (Call Block)

-- The rounds of `write_all`: `len` bytes of `buf` are left, `sent` went out. The result is that of
-- the call, the bytes that went out, and the calls that are left.
pub write_loop : ℤ → Writes → Block → ℕ → Block → Outcome (ℤ × Block × Writes)
write_loop bufsize calls buf zero sent = ret (bufsize, sent, calls)
write_loop bufsize [] buf (suc n) sent = out_of_fuel
write_loop bufsize (interrupted ∷ calls) buf (suc n) sent =
    write_loop bufsize calls buf (suc n) sent
write_loop bufsize (failed e ∷ calls) buf (suc n) sent = ret (negsuc e, sent, calls)
write_loop bufsize (gave k ∷ calls) buf (suc n) sent = elim (leb (suc n) (length buf)) [
  | true ↦ write_loop bufsize calls (drop k buf) (suc n - k) (sent ++ take k buf)
  | false ↦ fault
]

unfoldable pub write_all : Writes → Block → ℤ → Outcome (ℤ × Block × Writes)
unfolding write_loop
write_all calls buf (pos n) = write_loop (pos n) calls buf n []
write_all calls buf (negsuc n) = ret (negsuc n, [], calls)

-- The rounds of `read_all`. At the end of the file `buf` becomes NULL, and the loop goes on; the
-- kernel does not write through NULL.
pub read_loop : ℤ → Reads → Bool → ℕ → Block → Outcome (ℤ × Block × Reads)
read_loop bufsize calls null zero out = ret (bufsize, out, calls)
read_loop bufsize [] null (suc n) out = out_of_fuel
read_loop bufsize (interrupted ∷ calls) null (suc n) out = read_loop bufsize calls null (suc n) out
read_loop bufsize (failed e ∷ calls) null (suc n) out = ret (negsuc e, out, calls)
read_loop bufsize (gave [] ∷ calls) null (suc n) out = read_loop bufsize calls true (suc n) out
read_loop bufsize (gave (b ∷ bs) ∷ calls) true (suc n) out = fault
read_loop bufsize (gave (b ∷ bs) ∷ calls) false (suc n) out =
    read_loop bufsize calls false (n - length bs) (out ++ (b ∷ bs))

unfoldable pub read_all : Reads → ℤ → Outcome (ℤ × Block × Reads)
unfolding read_loop
read_all calls (pos n) = read_loop (pos n) calls false n []
read_all calls (negsuc n) = ret (negsuc n, [], calls)
