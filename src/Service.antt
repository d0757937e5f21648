-- ===== src/Service.antt =====
-- The client of source/client_stub.c and source/network_client.c with the server of
-- source/network_server.c and source/table_skel.c.
--
-- A request that the client sends comes in at the server, whose answer goes back. How the kernel
-- splits the bytes is an argument.
pub mod Keys
pub mod Keyed
pub mod Deletes
pub mod Gets
pub mod Values
use hash_map_storage_service.Prelude.{
  ℕ, ◌≡◌, refl, ◌∙◌, ap, sym, false, List, [], ◌∷◌, ◌==◌, if◌then◌else◌, Option, some, none, ◌<◌,
  length, drop, arith,
}
use hash_map_storage_service.Prelude.Int.{ℤ, pos}
use hash_map_storage_service.Prelude.Outcome.{Outcome, ret, fault, out_of_fuel}
use hash_map_storage_service.Data.{Block, int_bytes}
use hash_map_storage_service.Prelude.Text.{Text}
use hash_map_storage_service.NodeList.Cells.{Cells}
use hash_map_storage_service.Table.{TableT}
use hash_map_storage_service.Table.Rows.{IsTable}
use hash_map_storage_service.Table.Keys.{all_keys, table_get_keys-all_keys}
use hash_map_storage_service.Message.{
  Blocks, Store, Message, MessageT, to_message, to_message_t, free_message, read_text, free_block,
  dup_text,
}
use hash_map_storage_service.Message.RoundTrip.{HasKeys, message_t_keys-all}
use hash_map_storage_service.Message.Wire.{wire, IsCounted, to_message-wire}
use hash_map_storage_service.Message.Opcode
use hash_map_storage_service.Message.Content
use hash_map_storage_service.Socket.{Reads, Writes}
use hash_map_storage_service.Socket.WriteAll.{Takes}
use hash_map_storage_service.Socket.ReadAll.{Gives}
use hash_map_storage_service.Skeleton.{Server, invoke}
use hash_map_storage_service.Skeleton.Reads.{keys_in, invoke-size, invoke-keys}
use hash_map_storage_service.NetworkServer.{Handled, closed, muted, kept, Traffic, is_bad, handle}
use hash_map_storage_service.NetworkServer.Frame.{frame, network_receive-frame}
use hash_map_storage_service.NetworkServer.Serve.{serve-answer}
use hash_map_storage_service.Stub.{
  Exchange, ended, unanswered, not_unpacked, received, rtable_size, rtable_get_keys,
}
use hash_map_storage_service.Stub.Answers.{rtable_size-received, rtable_get_keys-received}

-- What the client makes of the bytes behind the length.
abbrev unpacked : Option MessageT → Exchange
unpacked none = not_unpacked
unpacked (some r) = received r

-- What becomes of a request, by what the server did with the connection: a server that closed it, or
-- crashed, ends the file; one that does not come back sends nothing.
abbrev pub exchange : (Block → Option MessageT) → Outcome (Handled × Server × Block) → Exchange
exchange unpack (ret (kept, s, out)) = unpacked (unpack (drop 4 out))
exchange unpack (ret (closed, s, out)) = ended
exchange unpack (ret (muted, s, out)) = ended
exchange unpack fault = ended
exchange unpack out_of_fuel = unanswered

-- The server s behind a connection of the client.
abbrev pub peer :
    (MessageT → Block)
    → (Block → Option MessageT)
    → (MessageT → Traffic)
    → ℤ
    → Server
    → MessageT
    → Exchange
peer pack unpack traffic sock s q = exchange unpack (handle pack unpack (traffic q) s sock)

-- The kernel brings the request q to the server and takes the answer r, in any portions; `unpack`
-- undoes `pack` on them, up to the defaults of protobuf.
pub record Carried (pack : MessageT → Block) (unpack : Block → Option MessageT) (traffic : Traffic)
    (q r : MessageT) : Type 0 where
  pub reads : Reads
  pub rest_in : Reads
  pub writes : Writes
  pub rest_out : Writes
  pub request_back : unpack (pack q) ≡ some (wire q)
  pub answer_back : unpack (pack r) ≡ some (wire r)
  pub small : length (pack q) < 2147483648
  pub head_in : Gives (int_bytes (length (pack q))) traffic.reads reads
  pub body_in : Gives (pack q) reads rest_in
  pub head_out : Takes 4 traffic.writes writes
  pub body_out : Takes (length (pack r)) writes rest_out

module _ (pack : MessageT → Block) (unpack : Block → Option MessageT) (traffic : MessageT → Traffic)
    (sock : ℕ) (s s' : Server) (q r : MessageT) (m m' : Message) (store : Store) (h : Blocks)
    (c : Carried pack unpack (traffic q) q r) (counted : IsCounted q.n_keys q.keys)
    (made : to_message s.store (some q) ≡ ret (some m, store)) (good : is_bad m ≡ false)
    (invoked : invoke (traffic q).junk (record s { store = store }) (some m)
      ≡ ret (pos 0, s', some m'))
    (packed : to_message_t s'.store.blocks m' ≡ ret r)
    (freed : free_message s'.store.blocks (some m') ≡ ret h) where
  -- A request that `invoke` answers leaves the server of `invoke`, less the answer.
  pub handle-kept :
      handle pack unpack (traffic q) s (pos sock)
      ≡ ret (kept, record s' { store = record s'.store { blocks = h } }, frame (pack r))
  unfolding handle
  handle-kept =
      rw
        (network_receive-frame unpack s.store (pack q) (wire q) sock (traffic q).reads c.reads
          c.rest_in c.request_back c.small c.head_in c.body_in)
        (rw (to_message-wire s.store q counted) (
          rw made (
            serve-answer pack (traffic q) sock (record s { store = store }) s' m m' r good invoked
              packed c.writes c.rest_out h c.head_out c.body_out freed)))

  -- The client gets that answer.
  pub peer-received : peer pack unpack traffic (pos sock) s q ≡ received (wire r)
  peer-received = ap (exchange unpack) handle-kept ∙ ap unpacked c.answer_back
