-- ===== src/NetworkServer.antt =====
-- source/network_server.c: messages over a socket, and what the server does with one. The loop over
-- the connections is in Connections.antt.
--
-- Sockets and protobuf are parameters: the calls of `read` and `write` on a socket (Socket.antt),
-- `pack` for the packed bytes of a struct, and `unpack` for the way back, NULL if it fails. What is
-- printed is left out. `malloc` succeeds.
pub mod Frame
pub mod Serve
use hash_map_storage_service.Prelude.{
  ℕ, zero, suc, ◌+◌, ◌-◌, Bool, true, false, ◌&&◌, ◌||◌, not, Option, none, some, List, [], ◌∷◌,
  ◌++◌, length, get_elem?, set, replicate, ltb, ◌==◌, if◌then◌else◌,
}
use hash_map_storage_service.Prelude.Int.{ℤ, pos, negsuc, minus_one, ltb_ℤ, eqb_ℤ}
use hash_map_storage_service.Prelude.Outcome.{Outcome, ret, fault, out_of_fuel, ◌>>=◌, deref}
use hash_map_storage_service.Data.{Block, int_bytes}
use hash_map_storage_service.Serialization.{read_int}
use hash_map_storage_service.Fifo.{Link}
use hash_map_storage_service.Message.{
  Store, Message, MessageT, to_message, to_message_t, free_message,
}
use hash_map_storage_service.Message.Opcode
use hash_map_storage_service.Message.Content
use hash_map_storage_service.Socket.{Reads, Writes, read_all, write_all}
use hash_map_storage_service.Skeleton.{Server, invoke}

-- The outcome of `network_send`: its result, the bytes that went out, and the store.
abbrev pub Sent : Type 0
Sent = ℤ × Block × Store

-- `write_all` gave something else than the length: the message is freed.
give_up : Store → Message → Block → Outcome Sent
give_up s m out =
    free_message s.blocks (some m) >>= λ h. ret (minus_one, out, record s { blocks = h })

send_body : Writes → Store → Message → Block → Block → Outcome Sent
unfolding give_up
send_body calls s m buf out = do
  (r, sent, _) ← write_all calls buf (pos (length buf))
  if eqb_ℤ r (pos (length buf)) then ret (r, out ++ sent, s) else give_up s m (out ++ sent)

pub send_frame : Writes → Store → Message → Block → Outcome Sent
unfolding send_body
send_frame calls s m buf = do
  (r, sent, calls') ← write_all calls (int_bytes (length buf)) (pos 4)
  if eqb_ℤ r (pos 4) then send_body calls' s m buf sent else give_up s m sent

unfoldable pub network_send :
    (MessageT → Block) → Writes → Store → ℤ → Option Message → Outcome Sent
unfolding send_frame
network_send pack calls s sock none = ret (minus_one, [], s)
network_send pack calls s sock (some m) =
    if ltb_ℤ sock (pos 0)
    then ret (minus_one, [], s)
    else to_message_t s.blocks m >>= λ r. send_frame calls s m (pack r)

-- The message of the struct that `unpack` gives.
receive_struct : Store → Option MessageT → Outcome (Option Message × Store)
receive_struct s none = ret (none, s)
receive_struct s (some r) = to_message s (some r)

-- `read_all` gave a negative number, or the bytes.
receive_body :
    (Block → Option MessageT) → Store → ℤ × Block × Reads → Outcome (Option Message × Store)
unfolding receive_struct
receive_body unpack s (r, body, _) =
    if ltb_ℤ r (pos 0) then ret (none, s) else receive_struct s (unpack body)

receive_length :
    (Block → Option MessageT) → Store → ℤ × Block × Reads → Outcome (Option Message × Store)
unfolding receive_body
receive_length unpack s (r, head, calls) =
    if ltb_ℤ r (pos 0)
    then ret (none, s)
    else read_int head >>= λ len. read_all calls len >>= λ got. receive_body unpack s got

unfoldable pub network_receive :
    (Block → Option MessageT) → Reads → Store → ℤ → Outcome (Option Message × Store)
unfolding receive_length
network_receive unpack calls s sock =
    if ltb_ℤ sock (pos 0)
    then ret (none, s)
    else read_all calls (pos 4) >>= λ got. receive_length unpack s got

-- What becomes of a connection with a request: it is closed and taken out, it is closed and its
-- descriptor set to -1, or it stays.
pub data Handled : Type 0 where
  closed muted kept : Handled

-- What the kernel does for one request: the reads, the writes, and the memory of a new task.
pub record Traffic : Type 0 where
  pub reads : Reads
  pub writes : Writes
  pub junk : Link

abbrev pub is_bad : Message → Bool
is_bad m = eqb_ℤ m.opcode Opcode.bad || eqb_ℤ m.c_type Content.bad

-- `free_message` on the blocks of the server
unfoldable pub release : Server → Option Message → Outcome Server
release s msg = free_message s.store.blocks msg >>= λ h.
    ret (record s { store = record s.store { blocks = h } })

-- The answer is sent and freed; `network_send` may have freed it before.
answer :
    (MessageT → Block) → Traffic → ℤ → Server → Option Message → Outcome (Handled × Server × Block)
answer pack traffic sock s msg = do
  (_, out, store) ← network_send pack traffic.writes s.store sock msg
  s' ← release (record s { store = store }) msg
  ret (kept, s', out)

-- Behind `invoke`.
answer_or_mute :
    (MessageT → Block)
    → Traffic
    → ℤ
    → ℤ × Server × Option Message
    → Outcome (Handled × Server × Block)
unfolding answer
answer_or_mute pack traffic sock (r, s, msg) =
    if eqb_ℤ r (pos 0)
    then answer pack traffic sock s msg
    else release s msg >>= λ s'. ret (muted, s', [])

unfoldable pub serve :
    (MessageT → Block) → Traffic → ℤ → Server → Option Message → Outcome (Handled × Server × Block)
unfolding answer_or_mute
serve pack traffic sock s none = ret (closed, s, [])
serve pack traffic sock s (some m) =
    if is_bad m
    then (release s (some m) >>= λ s'. ret (closed, s', []))
    else invoke traffic.junk s (some m) >>= λ r. answer_or_mute pack traffic sock r

-- A connection with data to read.
unfoldable pub handle :
    (MessageT → Block)
    → (Block → Option MessageT)
    → Traffic
    → Server
    → ℤ
    → Outcome (Handled × Server × Block)
handle pack unpack traffic s sock = do
  (msg, store) ← network_receive unpack traffic.reads s.store sock
  serve pack traffic sock (record s { store = store }) msg
