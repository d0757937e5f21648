-- ===== src/Tests/StubTests.antt =====
-- Calls of source/client_stub.c with a server that always gives the same answer, and with none.
use hash_map_storage_service.Prelude.{◌≡◌, refl, inr, none, some, [], ◌∷◌, arith}
use hash_map_storage_service.Prelude.Int.{pos}
use hash_map_storage_service.Prelude.Outcome.{fault}
use hash_map_storage_service.Message.{MessageT}
use hash_map_storage_service.Message.Opcode
use hash_map_storage_service.Message.Content
use hash_map_storage_service.Stub.{
  not_unpacked, rtable_size, rtable_verify, rtable_get_keys, rtable_del, rtable_get,
}
use hash_map_storage_service.Stub.NoAnswer.{rtable-silent_fault}
use hash_map_storage_service.Tests.ListTests.{a}
use hash_map_storage_service.Tests.MessageTests.{no_blocks}

-- two keys, and a size of two
abbrev pub answer : MessageT
answer = record {
  opcode = pos 51;
  c_type = Content.keys;
  data_size = pos 2;
  bytes = some [];
  key = some (97 ∷ []);
  n_keys = 2;
  keys = some ((97 ∷ []) ∷ (98 ∷ []) ∷ []);
}

abbrev error_answer : MessageT
error_answer = record answer { opcode = Opcode.error; n_keys = 0; keys = none }

rtable-silent_fault_example :
    (rtable_size (some (λ q. not_unpacked)) no_blocks ≡ fault)
    × (rtable_get_keys (some (λ q. not_unpacked)) no_blocks ≡ fault)
    × (rtable_verify (some (λ q. not_unpacked)) no_blocks (pos 3) ≡ fault)
    × (rtable_get (some (λ q. not_unpacked)) no_blocks (some a) ≡ fault)
    × (rtable_del (some (λ q. not_unpacked)) no_blocks (some a) ≡ fault)
rtable-silent_fault_example =
    rtable-silent_fault (λ q. not_unpacked) no_blocks (λ q. inr (inr refl)) 3 97 []
      (omega arith, tt)
