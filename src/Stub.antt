-- ===== src/Stub.antt =====
-- source/client_stub.c and `network_send_receive` of source/network_client.c: the client's calls.
--
-- protobuf and the sockets are a parameter: what comes back for the struct that is packed and
-- sent. What the functions print is left out.
pub mod Ask
pub mod Answers
pub mod NoAnswer
pub mod Connect
use hash_map_storage_service.Prelude.{
  ℕ, Bool, true, false, ◌&&◌, ◌||◌, Option, none, some, List, [], ◌∷◌, ◌==◌, if◌then◌else◌, is_some,
  not,
}
use hash_map_storage_service.Prelude.Int.{ℤ, pos, minus_one, leb_ℤ, ltb_ℤ, eqb_ℤ}
use hash_map_storage_service.Prelude.Outcome.{Outcome, ret, fault, out_of_fuel, ◌>>=◌, deref}
use hash_map_storage_service.Prelude.Text.{Text}
use hash_map_storage_service.Data.{Block, Data, data_create2, data_dup, c_string}
use hash_map_storage_service.Entry.{Entry}
use hash_map_storage_service.NodeList.{KeyArray}
use hash_map_storage_service.NodeList.Destroy.{free_keys_loop}
use hash_map_storage_service.Message.{
  Ptr, Blocks, Store, Message, MessageT, to_message, to_message_t, free_message,
}
use hash_map_storage_service.Message.Opcode
use hash_map_storage_service.Message.Content
use hash_map_storage_service.Tokens.{colon, strtok, strcpy}

-- What becomes of a request: it is not written; it is written, but a call of `read` for the answer
-- fails; the server closes the connection before the whole answer came; it keeps the connection and
-- does not send the whole answer; the answer does not unpack; or it does.
pub data Exchange : Type 0 where
  not_written not_read ended unanswered not_unpacked : Exchange
  received : MessageT → Exchange

-- `struct rtable_t *`, NULL or a connection.
abbrev pub Rtable : Type 0
Rtable = Option (MessageT → Exchange)

-- What the calls for a new socket give: the socket, the address, and the connection.
pub record Connecting : Type 0 where
  pub made : Bool
  pub address : Bool
  pub connection : Rtable

-- `connect` fails where there is no connection.
unfoldable pub network_connect : Option Connecting → ℤ
network_connect none = minus_one
network_connect (some c) = if is_some c.connection then pos 0 else minus_one

connect : Connecting → Outcome Rtable
connect c = if eqb_ℤ (network_connect (some c)) minus_one then ret none else ret c.connection

-- The string behind the pointer is cut before the test for NULL.
unfoldable pub rtable_connect : Connecting → Option Text → Outcome Rtable
unfolding connect
rtable_connect c address_port = do
  whole ← deref address_port
  hostname ← strcpy 20 (strtok colon whole).0
  port ← strcpy 20 (strtok colon (strtok colon whole).1).0
  if c.made && c.address then connect c else ret none

-- The socket is closed.
unfoldable pub network_close : Rtable → ℤ
network_close none = minus_one
network_close (some send) = pos 0

unfoldable pub rtable_disconnect : Rtable → ℤ
rtable_disconnect none = minus_one
rtable_disconnect (some send) = let closed = network_close (some send) in pos 0

-- The strings of the array that are freed, if there is one.
unfoldable pub rtable_free_keys : Option KeyArray → Outcome (List Text)
rtable_free_keys none = ret []
rtable_free_keys (some keys) = free_keys_loop keys.closed keys.written

-- A failed read frees the request and its buffers and goes on with them. At the end of the file
-- `read_all` does not return (Socket/EndOfFile), nor does it while `read` waits.
unfoldable pub receive : Store → Message → Exchange → Outcome (Option Message × Store)
receive s m not_written =
    free_message s.blocks (some m) >>= λ h. ret (none, record s { blocks = h })
receive s m not_read = fault
receive s m ended = out_of_fuel
receive s m unanswered = out_of_fuel
receive s m not_unpacked =
    free_message s.blocks (some m) >>= λ h. ret (none, record s { blocks = h })
receive s m (received r) = do
  (answer, s') ← to_message s (some r)
  h ← free_message s'.blocks (some m)
  ret (answer, record s' { blocks = h })

unfoldable pub network_send_receive :
    (MessageT → Exchange) → Store → Option Message → Outcome (Option Message × Store)
network_send_receive send s none = ret (none, s)
network_send_receive send s (some m) =
    to_message_t s.blocks m >>= λ request. receive s m (send request)

-- The part that the calls share: the struct becomes a message, which is sent; a NULL answer is
-- written to.
unfoldable pub ask : (MessageT → Exchange) → Store → MessageT → Outcome (Message × Store)
ask send s request = do
  (message, s₁) ← to_message s (some request)
  (response, s₂) ← network_send_receive send s₁ message
  r ← deref response
  ret (r, s₂)

-- `free_message` of the answer.
unfoldable pub close {ℓ} : {A : Type ℓ} → A → Message → Store → Outcome (A × Store)
close a r s = free_message s.blocks (some r) >>= λ h. ret (a, record s { blocks = h })

abbrev pub request : ℤ → ℤ → Option Text → Option Text → ℤ → MessageT
request opcode c_type key bytes size = record {
  opcode = opcode;
  c_type = c_type;
  data_size = size;
  bytes = bytes;
  key = key;
  n_keys = 0;
  keys = none;
}

-- `to_message` reads the data of a put as a C string.
put_entry : (MessageT → Exchange) → Store → Option Text → Data → Outcome (ℤ × Store)
put_entry send s none v = ret (minus_one, s)
put_entry send s (some key) v = elim v.bytes [
  | none ↦ ret (minus_one, s)
  | some b ↦
      if ltb_ℤ v.datasize (pos 0)
      then ret (minus_one, s)
      else c_string b >>= λ bytes.
          ask send s (request Opcode.put Content.entry (some key) (some bytes) v.datasize) >>= λ a.
          close (pos 0) a.0 a.1
]

unfoldable pub rtable_put : Rtable → Store → Option Entry → Outcome (ℤ × Store)
unfolding put_entry
rtable_put none s e = ret (minus_one, s)
rtable_put (some send) s none = ret (minus_one, s)
rtable_put (some send) s (some e) = deref e.value >>= λ v. put_entry send s e.key v

-- The block of the answer, NULL if it has none.
block_at : Blocks → Ptr → Outcome (Option Block)
block_at h none = ret none
block_at h (some a) = deref (h a) >>= λ b. ret (some b)

-- For an answer without data, the value is the empty C string.
get_answer : Message → Store → Outcome (Option Data)
unfolding block_at
get_answer r s =
    if leb_ℤ r.data_size (pos 0)
    then ret (data_create2 (pos 1) (some (some 0 ∷ [])))
    else block_at s.blocks r.bytes >>= λ b. data_dup (data_create2 r.data_size b)

unfoldable pub rtable_get : Rtable → Store → Option Text → Outcome (Option Data × Store)
unfolding get_answer
rtable_get none s key = ret (none, s)
rtable_get (some send) s none = ret (none, s)
rtable_get (some send) s (some key) = do
  (r, s') ← ask send s (request Opcode.get Content.key (some key) none (pos 0))
  d ← get_answer r s'
  close d r s'

unfoldable pub rtable_del : Rtable → Store → Option Text → Outcome (ℤ × Store)
rtable_del none s key = ret (minus_one, s)
rtable_del (some send) s none = ret (minus_one, s)
rtable_del (some send) s (some key) = do
  (r, s') ← ask send s (request Opcode.del Content.key (some key) none (pos 0))
  close (pos 0) r s'

unfoldable pub rtable_size : Rtable → Store → Outcome (ℤ × Store)
rtable_size none s = ret (minus_one, s)
rtable_size (some send) s = do
  (r, s') ← ask send s (request Opcode.size Content.none none none (pos 0))
  close r.data_size r s'

-- The array of the answer is passed on, and only the struct is freed.
unfoldable pub rtable_get_keys : Rtable → Store → Outcome (Option (List Text) × Store)
rtable_get_keys none s = ret (none, s)
rtable_get_keys (some send) s = do
  (r, s') ← ask send s (request Opcode.getkeys Content.none none none (pos 0))
  if r.n_keys == 0 then close none r s' else ret (r.keys, s')

-- For a negative number the request, an object of the stack, is freed.
unfoldable pub rtable_verify : Rtable → Store → ℤ → Outcome (ℤ × Store)
rtable_verify none s n = ret (minus_one, s)
rtable_verify (some send) s n =
    if ltb_ℤ n (pos 0)
    then fault
    else ask send s (request Opcode.verify Content.none none none n) >>= λ a.
        close (if eqb_ℤ (a.0).data_size (pos 0) then pos 0 else minus_one) a.0 a.1
