-- ===== src/Service/Deletes.antt =====
-- The delete of source/client_stub.c with a server of source/table_skel.c.
use hash_map_storage_service.Prelude.{ℕ, ◌≡◌, refl, ◌∙◌, ap, Option, some, none, [], ◌∷◌}
use hash_map_storage_service.Prelude.Int.{pos, ◌+ℤ◌}
use hash_map_storage_service.Prelude.Outcome.{ret, fault}
use hash_map_storage_service.Prelude.Text.{Text}
use hash_map_storage_service.Data.{Block}
use hash_map_storage_service.Data.Dup.{NoNul}
use hash_map_storage_service.Table.{TableT}
use hash_map_storage_service.Fifo.{Link, del}
use hash_map_storage_service.Message.{Store, MessageT, write, to_message_t, free_message}
use hash_map_storage_service.Message.Wire.{wire}
use hash_map_storage_service.Message.Opcode
use hash_map_storage_service.Message.Content
use hash_map_storage_service.Skeleton.{Server, process_task}
use hash_map_storage_service.Skeleton.Enqueue.{IsServer, answer_of}
use hash_map_storage_service.Skeleton.Serve.{invoke-free_message-process_task}
use hash_map_storage_service.NetworkServer.{Traffic, kept, handle}
use hash_map_storage_service.NetworkServer.Frame.{frame}
use hash_map_storage_service.Stub.{rtable_del}
use hash_map_storage_service.Stub.Answers.{rtable_del-received}
use hash_map_storage_service.Service.{peer, Carried, handle-kept, peer-received}
use hash_map_storage_service.Service.Keyed.{
  key_request, key_answer, key_message, with_key, arrived, made, packed, freed,
}

abbrev pub del_request : Text → MessageT
del_request key = key_request Opcode.del key

-- The answer to a delete with the number n.
abbrev pub del_answer : ℕ → Text → MessageT
del_answer n key = key_answer (pos 21) Content.none (pos n) key

-- A client deletes a key that is not empty on a server without waiting tasks whose queue has no tail.
-- If the kernel carries the request and the answer, in any portions, and the request is small enough for an int and
-- `unpack` undoes `pack` on them, up to "" for NULL, then `rtable_del` returns 0, and the server sends the answer and keeps the connection. But the
-- answer is freed with the key of the task, so that the round of the worker behind it reads the
-- freed key.
pub rtable_del-process_task_fault :
    (pack : MessageT → Block) (unpack : Block → Option MessageT) (traffic : MessageT → Traffic)
    (sock : ℕ) (stop : Link) (s : Server) (t : TableT) (c : ℕ) (key : Text) (store : Store)
    → NoNul (c ∷ key)
    → IsServer s t [] stop
    → s.queue.tail ≡ none
    → Carried pack unpack
        (traffic (del_request (c ∷ key)))
        (del_request (c ∷ key))
        (del_answer s.last_assigned (c ∷ key))
    → (store' : Store) × (s' : Server) × (rtable_del
          (some (peer pack unpack traffic (pos sock) s))
          store
          (some (c ∷ key))
        ≡ ret (pos 0, store'))
      × (handle pack unpack (traffic (del_request (c ∷ key))) s (pos sock)
          ≡ ret (kept, s', frame (pack (del_answer s.last_assigned (c ∷ key)))))
      × (process_task s' ≡ fault)
rtable_del-process_task_fault pack unpack traffic sock stop s t c key store no_nul is no_tail
      carried =
    let q = del_request (c ∷ key) in
    let r = del_answer s.last_assigned (c ∷ key) in
    let m = key_message s c key Opcode.del Content.key (pos 0) in
    let m' = answer_of del s.last_assigned m in
    let h = write (with_key s c key).blocks s.store.fresh none in
    let is' : IsServer (arrived s c key) t [] stop = record {
      table = is.table;
      is_queue = is.is_queue;
      numbers = is.numbers;
    } in
    let sent = packed s c key no_nul (pos 21) Content.none (pos s.last_assigned) in
    let gone = freed s c key (pos 21) Content.none (pos s.last_assigned) in
    let (s', run, same, broken) =
      invoke-free_message-process_task (traffic q).junk stop (arrived s c key) t del m is' no_tail
        refl refl s.store.fresh h refl (unfold ◌+ℤ◌ in gone) in
    let sent' : to_message_t s'.store.blocks m' ≡ ret r =
      ap (λ x. to_message_t x.blocks m') same ∙ (unfold ◌+ℤ◌ in sent) in
    let gone' : free_message s'.store.blocks (some m') ≡ ret h =
      ap (λ x. free_message x.blocks (some m')) same ∙ (unfold ◌+ℤ◌ in gone) in
    let (store', done) =
      rtable_del-received (peer pack unpack traffic (pos sock) s) store (wire r) refl c key no_nul (
        peer-received pack unpack traffic sock s s' q r m m' (with_key s c key) h carried refl
          (made s c key Opcode.del) refl run sent' gone') in
    (
      store',
      record s' { store = record s'.store { blocks = h } },
      done,
      handle-kept pack unpack traffic sock s s' q r m m' (with_key s c key) h carried refl
          (made s c key Opcode.del) refl run sent' gone',
      broken,
    )
