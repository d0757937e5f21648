-- ===== src/Socket/EndOfFile.antt =====
-- `read_all` of source/message.c when the other side closes the connection early.
use hash_map_storage_service.Prelude.{
  ℕ, zero, suc, ◌-◌, ◌<◌, ◌≡◌, refl, ◌∙◌, [], length, Bool, true, false, arith, replicate,
}
use hash_map_storage_service.Prelude.Int.{ℤ, pos}
use hash_map_storage_service.Prelude.Outcome.{out_of_fuel}
use hash_map_storage_service.Data.{Block}
use hash_map_storage_service.Socket.{Call, gave, Reads, read_loop, read_all}
use hash_map_storage_service.Socket.ReadAll.{Gives, read_loop-Gives}

-- `read` at the end of the file
abbrev pub end_of_file : Call Block
end_of_file = gave []

read_loop-end :
    (size : ℤ) (k n : ℕ) (null : Bool) (out : Block)
    → read_loop size (replicate k end_of_file) null (suc n) out ≡ out_of_fuel
unfolding read_loop
read_loop-end size zero n null out = refl
read_loop-end size (suc k) n null out = read_loop-end size k n true out

-- If the connection is closed after fewer than n bytes, `read_all` of n bytes does not return,
-- however often `read` says that the file has ended.
pub read_all-end_of_file :
    (b : Block) (calls : Reads) (n k : ℕ)
    → Gives b calls (replicate k end_of_file)
    → length b < n
    → read_all calls (pos n) ≡ out_of_fuel
unfolding read_all
read_all-end_of_file b calls n k g lt =
    let left : n - length b ≡ suc (n - length b - 1) = omega arith in
    read_loop-Gives (pos n) b calls (replicate k end_of_file) n [] (omega arith) g
    ∙ rw left (read_loop-end (pos n) k (n - length b - 1) false b)
