-- ===== src/Tests/SocketTests.antt =====
-- Writes and reads of three bytes with source/message.c.
use hash_map_storage_service.Prelude.{◌≡◌, refl, some, [], ◌∷◌, arith, replicate}
use hash_map_storage_service.Prelude.Int.{pos}
use hash_map_storage_service.Prelude.Outcome.{ret, out_of_fuel}
use hash_map_storage_service.Data.{Block}
use hash_map_storage_service.Socket.{interrupted, gave, Writes, Reads, write_all, read_all}
use hash_map_storage_service.Socket.WriteAll.{write_all-Takes}
use hash_map_storage_service.Socket.EndOfFile.{end_of_file, read_all-end_of_file}

abbrev three_bytes : Block
three_bytes = some 1 ∷ some 2 ∷ some 3 ∷ []

abbrev two_writes : Writes
two_writes = interrupted ∷ gave 2 ∷ gave 1 ∷ []

abbrev early_end : Reads
early_end = gave (some 1 ∷ []) ∷ replicate 2 end_of_file

write_all-Takes_example : write_all two_writes three_bytes (pos 3) ≡ ret (pos 3, three_bytes, [])
write_all-Takes_example =
    write_all-Takes two_writes [] three_bytes 3 (omega arith, (omega arith, refl)) (omega arith)

read_all-end_of_file_example : read_all early_end (pos 3) ≡ out_of_fuel
read_all-end_of_file_example =
    read_all-end_of_file (some 1 ∷ []) early_end 3 2 ([], refl, refl) (omega arith)
