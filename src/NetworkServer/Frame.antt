-- ===== src/NetworkServer/Frame.antt =====
-- A message from `network_send` to `network_receive` of source/network_server.c.
use hash_map_storage_service.Prelude.{
  ℕ, ◌<◌, ◌≡◌, refl, ap, ◌∙◌, true, false, Option, some, [], ◌∷◌, ◌++◌, length, take, arith,
}
use hash_map_storage_service.Prelude.Int.{pos, ltb_ℤ, eqb_ℤ}
use hash_map_storage_service.Prelude.Outcome.{ret}
use hash_map_storage_service.Data.{Block, int_bytes}
use hash_map_storage_service.Serialization.DataRoundTrip.{read_int-int_bytes}
use hash_map_storage_service.Message.{Store, Message, MessageT, to_message, to_message_t}
use hash_map_storage_service.Message.Wire.{wire, IsCounted, to_message-wire}
use hash_map_storage_service.Socket.{Writes, Reads}
use hash_map_storage_service.Socket.WriteAll.{Takes, write_all-Takes}
use hash_map_storage_service.Socket.ReadAll.{Gives, read_all-Gives}
use hash_map_storage_service.NetworkServer.{
  network_send, send_frame, send_body, network_receive, receive_length, receive_body,
  receive_struct,
}

take_all : (b : Block) → take (length b) b ≡ b
take_all [] = refl
take_all (x ∷ b) = ap (λ t. x ∷ t) (take_all b)

same_size : (n : ℕ) → eqb_ℤ (pos n) (pos n) ≡ true
same_size n = ground arith

pub not_negative : (n : ℕ) → ltb_ℤ (pos n) (pos 0) ≡ false
not_negative n = ground arith

-- The length and the packed bytes.
abbrev pub frame : Block → Block
frame b = int_bytes (length b) ++ b

-- The kernel takes the length and the body, in any portions: the frame went out.
pub send_frame-frame :
    (s : Store) (m : Message) (body : Block) (calls calls₁ rest : Writes)
    → Takes 4 calls calls₁
    → Takes (length body) calls₁ rest
    → send_frame calls s m body ≡ ret (pos (length body), frame body, s)
unfolding send_frame send_body
send_frame-frame s m body calls calls₁ rest first second =
    let four : take 4 (int_bytes (length body)) ≡ int_bytes (length body) = refl in
    rw (write_all-Takes calls calls₁ (int_bytes (length body)) 4 first (omega arith)) (
      rw (write_all-Takes calls₁ rest body (length body) second (omega arith))
        (rw (same_size (length body), take_all body) refl))

-- Writing the length and the bytes in any portions sends them in order and returns the length.
pub network_send-frame :
    (pack : MessageT → Block) (s : Store) (m : Message) (q : MessageT) (sock : ℕ)
    (calls calls₁ rest : Writes)
    → to_message_t s.blocks m ≡ ret q
    → Takes 4 calls calls₁
    → Takes (length (pack q)) calls₁ rest
    → network_send pack calls s (pos sock) (some m) ≡ ret (pos (length (pack q)), frame (pack q), s)
unfolding network_send
network_send-frame pack s m q sock calls calls₁ rest packed first second =
    rw (not_negative sock)
      (rw packed (send_frame-frame s m (pack q) calls calls₁ rest first second))

-- A frame that comes in, in any portions, gives the message of its struct.
pub network_receive-frame :
    (unpack : Block → Option MessageT) (s : Store) (b : Block) (q : MessageT) (sock : ℕ)
    (calls calls₁ rest : Reads)
    → unpack b ≡ some q
    → length b < 2147483648
    → Gives (int_bytes (length b)) calls calls₁
    → Gives b calls₁ rest
    → network_receive unpack calls s (pos sock) ≡ to_message s (some q)
unfolding network_receive receive_length receive_body receive_struct
network_receive-frame unpack s b q sock calls calls₁ rest unpacked small first second =
    rw (not_negative sock) (
      rw (read_all-Gives (int_bytes (length b)) calls calls₁ first) (
        rw (read_int-int_bytes (length b) [] small)
          (rw (read_all-Gives b calls₁ rest second) (rw (not_negative (length b), unpacked) refl))))

-- What `network_send` writes of a message, `network_receive` turns into the message that `to_message`
-- makes of the same struct, however the kernel splits the bytes, if the struct packs to fewer than 2^31
-- bytes, has no array of keys without keys, and `unpack` undoes `pack` on it, up to "" for NULL.
-- `network_send` returns the number of packed bytes and leaves the message to its caller.
pub network_receive-network_send :
    (pack : MessageT → Block) (unpack : Block → Option MessageT) (s s' : Store) (m : Message)
    (q : MessageT) (sock sock' : ℕ) (calls calls₁ rest : Writes) (reads reads₁ rest' : Reads)
    → to_message_t s.blocks m ≡ ret q
    → unpack (pack q) ≡ some (wire q)
    → IsCounted q.n_keys q.keys
    → length (pack q) < 2147483648
    → Takes 4 calls calls₁
    → Takes (length (pack q)) calls₁ rest
    → Gives (int_bytes (length (pack q))) reads reads₁
    → Gives (pack q) reads₁ rest'
    → (network_send pack calls s (pos sock) (some m)
        ≡ ret (pos (length (pack q)), frame (pack q), s))
      × (network_receive unpack reads s' (pos sock') ≡ to_message s' (some q))
network_receive-network_send pack unpack s s' m q sock sock' calls calls₁ rest reads reads₁ rest'
      packed unpacked counted small t t' g g' =
    (
      network_send-frame pack s m q sock calls calls₁ rest packed t t',
      network_receive-frame unpack s' (pack q) (wire q) sock' reads reads₁ rest' unpacked small g g'
          ∙ to_message-wire s' q counted,
    )
