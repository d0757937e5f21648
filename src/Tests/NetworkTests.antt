-- ===== src/Tests/NetworkTests.antt =====
-- Messages over sockets in source/network_server.c.
use hash_map_storage_service.Prelude.{◌≡◌, refl, ap, ◌∙◌, none, some, [], ◌∷◌, inl, inr, arith}
use hash_map_storage_service.Prelude.Int.{pos, ◌+ℤ◌}
use hash_map_storage_service.Prelude.Outcome.{ret, fault}
use hash_map_storage_service.Data.{c_string, int_bytes}
use hash_map_storage_service.Fifo.{del}
use hash_map_storage_service.Message.{
  Message, MessageT, read_text, to_message, to_message_t, free_block, free_message, write,
}
use hash_map_storage_service.Message.Opcode
use hash_map_storage_service.Message.Content
use hash_map_storage_service.Socket.{interrupted, failed, gave, Writes, Reads, write_all}
use hash_map_storage_service.Skeleton.{Server, invoke}
use hash_map_storage_service.Skeleton.Enqueue.{answer_of, invoke-Enqueued}
use hash_map_storage_service.NetworkServer.{Traffic, network_send, network_receive, serve}
use hash_map_storage_service.NetworkServer.Frame.{frame, network_receive-network_send}
use hash_map_storage_service.NetworkServer.Serve.{serve-failed_write_fault}
use hash_map_storage_service.Tests.Codec.{pack, unpack}
use hash_map_storage_service.Tests.FifoTests.{first_cells}
use hash_map_storage_service.Tests.TableTests.{table}
use hash_map_storage_service.Tests.SkeletonTests.{waiting, waiting-IsServer, delete_b}
use hash_map_storage_service.Tests.MessageTests.{no_blocks}

abbrev pub size_request : MessageT
size_request = record {
  opcode = Opcode.size;
  c_type = Content.none;
  data_size = pos 0;
  bytes = none;
  key = none;
  n_keys = 0;
  keys = none;
}

abbrev pub size_message : Message
size_message = record {
  opcode = Opcode.size;
  c_type = Content.none;
  data_size = pos 0;
  bytes = none;
  key = none;
  n_keys = 0;
  keys = none;
}

size_packed : to_message_t no_blocks.blocks size_message ≡ ret size_request
unfolding to_message_t read_text
size_packed = refl

abbrev pub writes : Writes
writes = gave 3 ∷ gave 1 ∷ interrupted ∷ gave 6 ∷ []

abbrev pub reads : Reads
reads = gave (int_bytes 6) ∷ gave (pack size_request) ∷ []

network_receive-network_send_example :
    (network_send pack writes no_blocks (pos 4) (some size_message)
      ≡ ret (pos 6, frame (pack size_request), no_blocks))
    × (network_receive unpack reads no_blocks (pos 5) ≡ to_message no_blocks (some size_request))
network_receive-network_send_example =
    network_receive-network_send pack unpack no_blocks no_blocks size_message size_request 4 5
      writes (interrupted ∷ gave 6 ∷ []) [] reads (gave (pack size_request) ∷ []) [] size_packed
      refl refl (omega arith) (omega arith, (omega arith, refl)) (omega arith, refl)
      ([], refl, refl) ([], refl, refl)

abbrev answer : MessageT
answer = record {
  opcode = Opcode.del +ℤ pos 1;
  c_type = Content.none;
  data_size = pos 1;
  bytes = none;
  key = some (98 ∷ []);
  n_keys = 0;
  keys = none;
}

answer_packed : to_message_t waiting.store.blocks (answer_of del 1 delete_b) ≡ ret answer
unfolding to_message_t read_text c_string
answer_packed = refl

-- the server behind `invoke` of the delete
record Served (s' : Server) : Type 0 where
  invoked : invoke none waiting (some delete_b) ≡ ret (pos 0, s', some (answer_of del 1 delete_b))
  packed : to_message_t s'.store.blocks (answer_of del 1 delete_b) ≡ ret answer
  freed :
      free_message s'.store.blocks (some (answer_of del 1 delete_b))
      ≡ ret (write waiting.store.blocks 0 none)

invoke-Served : (s' : Server) × Served s'
unfolding free_message free_block
invoke-Served =
    let (s', run, e) =
      invoke-Enqueued none (some none) waiting table first_cells del delete_b waiting-IsServer
        (inr (omega arith, refl)) refl refl in
    (
      s',
      record {
        invoked = run;
        packed =
            ap (λ st. to_message_t st.blocks (answer_of del 1 delete_b)) e.store ∙ answer_packed;
        freed = ap (λ st. free_message st.blocks (some (answer_of del 1 delete_b))) e.store ∙ refl;
      },
    )

abbrev pub traffic : Traffic
traffic = record { reads = []; writes = gave 4 ∷ gave 7 ∷ []; junk = none }

-- the same with a peer that is gone
abbrev broken : Traffic
broken = record { reads = []; writes = failed 0 ∷ []; junk = none }

serve-failed_write_fault_example : serve pack broken (pos 4) waiting (some delete_b) ≡ fault
unfolding write_all
serve-failed_write_fault_example =
    serve-failed_write_fault pack broken 4 waiting invoke-Served.0 delete_b
      (answer_of del 1 delete_b) answer refl invoke-Served.1.invoked invoke-Served.1.packed 0 0 []
      [] refl (inl refl)
