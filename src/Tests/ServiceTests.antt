-- ===== src/Tests/ServiceTests.antt =====
-- A client of source/client_stub.c that asks a server of source/table_skel.c for its keys.
use hash_map_storage_service.Prelude.{
  ◌≡◌, refl, List, none, some, [], ◌∷◌, length, arith, ◌<◌, inl, if◌then◌else◌,
}
use hash_map_storage_service.Prelude.Int.{pos, eqb_ℤ}
use hash_map_storage_service.Prelude.Outcome.{ret, fault, ◌>>=◌}
use hash_map_storage_service.Data.{Block, c_string, int_bytes, data_of}
use hash_map_storage_service.Data.Dup.{dup_of}
use hash_map_storage_service.Entry.{entry}
use hash_map_storage_service.Prelude.Text.{text_eq}
use hash_map_storage_service.NodeList.Cells.{Cells}
use hash_map_storage_service.Table.{TableT, table_put}
use hash_map_storage_service.Table.Put.{Stored, table_put-Stored}
use hash_map_storage_service.Table.Keys.{all_keys}
use hash_map_storage_service.Table.View.{view}
use hash_map_storage_service.Table.Get.{dup_found}
use hash_map_storage_service.Message.{Store, MessageT, read_text}
use hash_map_storage_service.Message.Opcode
use hash_map_storage_service.Socket.{gave}
use hash_map_storage_service.NetworkServer.{Traffic, kept, handle}
use hash_map_storage_service.Skeleton.{Server, invoke, process_task}
use hash_map_storage_service.Skeleton.Reads.{asking, size_of, keys_in, reply_value, invoke-view}
use hash_map_storage_service.Stub.{rtable_del, rtable_size, rtable_get_keys, rtable_get}
use hash_map_storage_service.Service.{peer, Carried}
use hash_map_storage_service.Service.Keys.{
  some_keys, size_request, keys_request, size_answer, keys_answer, rtable-all_keys,
}
use hash_map_storage_service.Service.Deletes.{
  del_request, del_answer, rtable_del-process_task_fault,
}
use hash_map_storage_service.Service.Keyed.{key_request}
use hash_map_storage_service.Service.Values.{value_answer, rtable_get-stored, handle-found_fault}
use hash_map_storage_service.NetworkServer.Frame.{frame}
use hash_map_storage_service.Message.Wire.{wire}
use hash_map_storage_service.Socket.WriteAll.{Takes}
use hash_map_storage_service.Socket.ReadAll.{Gives}
use hash_map_storage_service.Tests.Codec.{pack, unpack}
use hash_map_storage_service.Tests.ListTests.{b}
use hash_map_storage_service.Tests.TableTests.{
  table, rows, table-IsTable, table-IsReady, hashes, value,
}
use hash_map_storage_service.Tests.SkeletonTests.{waiting, delete_b, idle, idle-IsServer, no_tail}
use hash_map_storage_service.Tests.MessageTests.{no_blocks}

delete_b_key : read_text waiting.store.blocks delete_b.key ≡ ret (some b)
unfolding read_text c_string
delete_b_key = refl

invoke-view_example :
    (invoke none waiting (some (asking Opcode.size delete_b))
      ≡ ret (pos 0, waiting, some (size_of table delete_b)))
    × (invoke none waiting (some (asking Opcode.getkeys delete_b))
        ≡ ret (pos 0, waiting, some (keys_in table rows delete_b)))
    × (invoke none waiting (some (asking Opcode.get delete_b))
        ≡ (dup_found (view b rows) >>= λ d. ret (reply_value waiting delete_b d)))
invoke-view_example =
    invoke-view none waiting table rows delete_b b refl table-IsTable refl delete_b_key

-- A request in one portion, and its answer r in one portion.
abbrev one_answer : MessageT → MessageT → Traffic
one_answer r q = record {
  reads = gave (int_bytes (length (pack q))) ∷ gave (pack q) ∷ [];
  writes = gave 4 ∷ gave (length (pack r)) ∷ [];
  junk = none;
}

abbrev traffic : MessageT → Traffic
traffic q =
    if eqb_ℤ q.opcode Opcode.size
    then one_answer (size_answer table.size) q
    else one_answer (keys_answer (all_keys rows)) q

carried :
    (q r : MessageT)
    → unpack (pack q) ≡ some (wire q)
    → unpack (pack r) ≡ some (wire r)
    → length (pack q) < 2147483648
    → Gives (int_bytes (length (pack q))) (one_answer r q).reads (gave (pack q) ∷ [])
    → Gives (pack q) (gave (pack q) ∷ []) []
    → Takes (length (pack r)) (gave (length (pack r)) ∷ []) []
    → Carried pack unpack (one_answer r q) q r
carried q r request answer small head body out = record {
  reads = gave (pack q) ∷ [];
  rest_in = [];
  writes = gave (length (pack r)) ∷ [];
  rest_out = [];
  request_back = request;
  answer_back = answer;
  small = small;
  head_in = head;
  body_in = body;
  head_out = (omega arith, refl);
  body_out = out;
}

rtable-all_keys_example :
    (s₁ : Store) × (s₂ : Store) × (rtable_size
        (some (peer pack unpack traffic (pos 4) waiting))
        no_blocks
      ≡ ret (pos (length (all_keys rows)), s₁))
    × (rtable_get_keys (some (peer pack unpack traffic (pos 4) waiting)) no_blocks
        ≡ ret (some_keys (all_keys rows), s₂))
rtable-all_keys_example =
    rtable-all_keys pack unpack traffic 4 waiting table rows refl table-IsTable no_blocks
      (carried size_request (size_answer table.size) refl refl (omega arith) ([], refl, refl)
        ([], refl, refl) (omega arith, refl))
      (carried keys_request (keys_answer (all_keys rows)) refl refl (omega arith) ([], refl, refl)
        ([], refl, refl) (omega arith, refl))

rtable_del-process_task_fault_example :
    (store' : Store) × (s' : Server) × (rtable_del
        (some (peer pack unpack (one_answer (del_answer 0 b)) (pos 4) idle))
        no_blocks
        (some b)
      ≡ ret (pos 0, store'))
    × (handle pack unpack (one_answer (del_answer 0 b) (del_request b)) idle (pos 4)
        ≡ ret (kept, s', frame (pack (del_answer 0 b))))
    × (process_task s' ≡ fault)
rtable_del-process_task_fault_example =
    rtable_del-process_task_fault pack unpack (one_answer (del_answer 0 b)) 4 (some none) idle table
      98 [] no_blocks (omega arith, tt) idle-IsServer no_tail
      (carried (del_request b) (del_answer 0 b) refl refl (omega arith) ([], refl, refl)
        ([], refl, refl) (omega arith, refl))

-- The table with "xy" under b.
abbrev put_b :
    (t' : TableT) × (xss' : List Cells) × (table_put
        (some table)
        (some b)
        (some (data_of (pos 2) (some value)))
      ≡ ret (pos 0, some t'))
    × Stored table rows b (dup_of 2 value) t' xss'
put_b =
    table_put-Stored table rows b 0 table-IsTable hashes.1 table-IsReady 2 value (omega arith)
      (omega arith) (omega arith)

b_stored : view b put_b.1 ≡ some (entry (some b) (some (dup_of 2 value)))
unfolding text_eq
b_stored = put_b.3.reads b

abbrev with_b : Server
with_b = record waiting { table = some put_b.0 }

rtable_get-stored_example :
    (store' : Store) × (rtable_get
        (some (peer pack unpack (one_answer (value_answer 2 (120 ∷ 121 ∷ []) b)) (pos 4) with_b))
        no_blocks
        (some b)
      ≡ ret (some (dup_of 2 value), store'))
rtable_get-stored_example =
    rtable_get-stored with_b put_b.0 put_b.1 98 [] (120 ∷ 121 ∷ []) (omega arith, tt)
      (omega arith, (omega arith, tt)) (omega arith) (omega arith) refl put_b.3.is_table b_stored
      pack unpack (one_answer (value_answer 2 (120 ∷ 121 ∷ []) b)) 4 no_blocks (omega arith)
      (carried (key_request Opcode.get b) (value_answer 2 (120 ∷ 121 ∷ []) b) refl refl
        (omega arith) ([], refl, refl) ([], refl, refl) (omega arith, refl))

-- The table with "xyzw" under b.
abbrev long_value : Block
long_value = some 120 ∷ some 121 ∷ some 122 ∷ some 119 ∷ []

abbrev put_long :
    (t' : TableT) × (xss' : List Cells) × (table_put
        (some table)
        (some b)
        (some (data_of (pos 4) (some long_value)))
      ≡ ret (pos 0, some t'))
    × Stored table rows b (dup_of 4 long_value) t' xss'
put_long =
    table_put-Stored table rows b 0 table-IsTable hashes.1 table-IsReady 4 long_value (omega arith)
      (omega arith) (omega arith)

long_stored : view b put_long.1 ≡ some (entry (some b) (some (dup_of 4 long_value)))
unfolding text_eq
long_stored = put_long.3.reads b

abbrev with_long : Server
with_long = record waiting { table = some put_long.0 }

handle-found_fault_example :
    handle pack unpack (one_answer size_request (key_request Opcode.get b)) with_long (pos 4)
    ≡ fault
handle-found_fault_example =
    handle-found_fault with_long put_long.0 put_long.1 98 [] (120 ∷ 121 ∷ 122 ∷ 119 ∷ [])
      (omega arith, tt) (omega arith, (omega arith, (omega arith, (omega arith, tt)))) (omega arith)
      (omega arith) refl put_long.3.is_table long_stored pack unpack
      (one_answer size_request (key_request Opcode.get b)) 4
      (gave (pack (key_request Opcode.get b)) ∷ []) [] (omega arith) (inl (omega arith)) refl
      (omega arith) ([], refl, refl) ([], refl, refl)
