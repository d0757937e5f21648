-- ===== src/Service/Keys.antt =====
-- The calls for the size and the keys of source/client_stub.c with a server of source/table_skel.c.
use hash_map_storage_service.Prelude.{
  ℕ, ◌≡◌, refl, ◌∙◌, ap, sym, false, List, [], ◌∷◌, ◌==◌, if◌then◌else◌, Option, some, none, length,
  arith,
}
use hash_map_storage_service.Prelude.Int.{ℤ, pos}
use hash_map_storage_service.Prelude.Outcome.{ret}
use hash_map_storage_service.Data.{Block}
use hash_map_storage_service.Prelude.Text.{Text}
use hash_map_storage_service.NodeList.Cells.{Cells}
use hash_map_storage_service.Table.{TableT}
use hash_map_storage_service.Table.Rows.{IsTable}
use hash_map_storage_service.Table.Keys.{all_keys, table_get_keys-all_keys}
use hash_map_storage_service.Message.{
  Blocks, Store, Message, MessageT, to_message, to_message_t, free_message, read_text, free_block,
  dup_text,
}
use hash_map_storage_service.Message.RoundTrip.{HasKeys, message_t_keys-all}
use hash_map_storage_service.Message.Wire.{wire, wire_keys}
use hash_map_storage_service.Message.Opcode
use hash_map_storage_service.Message.Content
use hash_map_storage_service.Skeleton.{Server}
use hash_map_storage_service.Skeleton.Reads.{keys_in, invoke-size, invoke-keys}
use hash_map_storage_service.NetworkServer.{Traffic}
use hash_map_storage_service.Stub.{received, rtable_size, rtable_get_keys}
use hash_map_storage_service.Stub.Answers.{rtable_size-received, rtable_get_keys-received}
use hash_map_storage_service.Service.{peer, Carried, peer-received}

-- A struct without strings, with the keys that an answer to `getkeys` has.
abbrev pub plain : ℤ → ℤ → ℤ → ℕ → Option (List Text) → MessageT
plain opcode c_type size n keys = record {
  opcode = opcode;
  c_type = c_type;
  data_size = size;
  bytes = none;
  key = none;
  n_keys = n;
  keys = keys;
}

-- The message of such a struct.
abbrev message_of : ℤ → ℤ → ℤ → ℕ → Option (List Text) → Message
message_of opcode c_type size n keys = record {
  opcode = opcode;
  c_type = c_type;
  data_size = size;
  bytes = none;
  key = none;
  n_keys = n;
  keys = keys;
}

plain-to_message :
    (s : Store) (opcode : ℤ)
    → to_message s (some (plain opcode Content.none (pos 0) 0 none))
      ≡ ret (some (message_of opcode Content.none (pos 0) 0 none), s)
unfolding to_message dup_text
plain-to_message s opcode = refl

plain-to_message_t :
    (h : Blocks) (opcode c_type size : ℤ) (n : ℕ) (keys : Option (List Text))
    → HasKeys n keys
    → to_message_t h (message_of opcode c_type size n keys) ≡ ret (plain opcode c_type size n keys)
unfolding to_message_t read_text
plain-to_message_t h opcode c_type size n keys has = rw (message_t_keys-all n keys has) refl

plain-free_message :
    (h : Blocks) (opcode c_type size : ℤ) (n : ℕ) (keys : Option (List Text))
    → free_message h (some (message_of opcode c_type size n keys)) ≡ ret h
unfolding free_message free_block
plain-free_message h opcode c_type size n keys = refl

-- The keys of an answer, NULL if there are none.
abbrev pub some_keys : List Text → Option (List Text)
some_keys [] = none
some_keys (k ∷ keys) = some (k ∷ keys)

abbrev pub size_request : MessageT
size_request = plain Opcode.size Content.none (pos 0) 0 none

abbrev pub keys_request : MessageT
keys_request = plain Opcode.getkeys Content.none (pos 0) 0 none

abbrev pub size_answer : ℕ → MessageT
size_answer n = plain (pos 11) Content.result (pos n) 0 none

abbrev pub keys_answer : List Text → MessageT
keys_answer keys = plain (pos 51) Content.keys (pos 0) (length keys) (some_keys keys)

some_keys-HasKeys : (keys : List Text) → HasKeys (length keys) (some_keys keys)
some_keys-HasKeys [] = refl
some_keys-HasKeys (k ∷ keys) = refl

some_keys-if :
    (keys : List Text) (n : ℕ)
    → length keys ≡ n
    → (if n == 0 then none else some keys) ≡ some_keys keys
some_keys-if [] n e = rw (← e) refl
some_keys-if (k ∷ keys) n e =
    let positive : (n == 0) ≡ false = ground (arith, e) in rw positive refl

wire-HasKeys : (keys : List Text) → HasKeys (length keys) (wire_keys (length keys) (some_keys keys))
wire-HasKeys [] = refl
wire-HasKeys (k ∷ keys) = refl

shown_keys :
    (keys : List Text)
    → (if length keys == 0 then none else wire_keys (length keys) (some_keys keys)) ≡ some_keys keys
shown_keys [] = refl
shown_keys (k ∷ keys) =
    let positive : (length (k ∷ keys) == 0) ≡ false = ground arith in rw positive refl

module _ (pack : MessageT → Block) (unpack : Block → Option MessageT) (traffic : MessageT → Traffic)
    (sock : ℕ) (s : Server) (t : TableT) (xss : List Cells) (table : s.table ≡ some t)
    (is : IsTable t xss) where
  size_received :
      Carried pack unpack (traffic size_request) size_request (size_answer t.size)
      → peer pack unpack traffic (pos sock) s size_request ≡ received (wire (size_answer t.size))
  size_received c =
      peer-received pack unpack traffic sock s s size_request (size_answer t.size)
        (message_of Opcode.size Content.none (pos 0) 0 none)
        (message_of (pos 11) Content.result (pos t.size) 0 none) s.store s.store.blocks c refl
        (plain-to_message s.store Opcode.size) refl
        (invoke-size (traffic size_request).junk s t
          (message_of Opcode.size Content.none (pos 0) 0 none) table refl)
        (plain-to_message_t s.store.blocks (pos 11) Content.result (pos t.size) 0 none refl)
        (plain-free_message s.store.blocks (pos 11) Content.result (pos t.size) 0 none)

  keys_received :
      Carried pack unpack (traffic keys_request) keys_request (keys_answer (all_keys xss))
      → peer pack unpack traffic (pos sock) s keys_request
        ≡ received (wire (keys_answer (all_keys xss)))
  keys_received c =
      let count = (table_get_keys-all_keys.0 t xss is).1 in
      let m : Message = message_of Opcode.getkeys Content.none (pos 0) 0 none in
      let same : keys_in t xss m
          ≡ message_of (pos 51) Content.keys (pos 0) (length (all_keys xss))
              (some_keys (all_keys xss)) =
        ap (message_of (pos 51) Content.keys (pos 0) t.size)
          (some_keys-if (all_keys xss) t.size count)
        ∙ ap (λ n. message_of (pos 51) Content.keys (pos 0) n (some_keys (all_keys xss)))
            (sym count) in
      peer-received pack unpack traffic sock s s keys_request (keys_answer (all_keys xss)) m
        (message_of (pos 51) Content.keys (pos 0) (length (all_keys xss))
          (some_keys (all_keys xss)))
        s.store s.store.blocks c refl (plain-to_message s.store Opcode.getkeys) refl
        (invoke-keys (traffic keys_request).junk s t xss m table is refl
          ∙ ap (λ a. ret (pos 0, s, some a)) same)
        (plain-to_message_t s.store.blocks (pos 51) Content.keys (pos 0) (length (all_keys xss))
          (some_keys (all_keys xss)) (some_keys-HasKeys (all_keys xss)))
        (plain-free_message s.store.blocks (pos 51) Content.keys (pos 0) (length (all_keys xss))
          (some_keys (all_keys xss)))

  -- If the kernel carries the requests and the answers, in any portions, and the requests are small enough for an int and
  -- `unpack` undoes `pack` on them, up to "" for NULL, then on a server with a sound table the call `rtable_size` of the client returns the number
  -- of keys of the abstract map, and `rtable_get_keys` returns these keys, NULL if there are none.
  pub rtable-all_keys :
      (store : Store)
      → Carried pack unpack (traffic size_request) size_request (size_answer t.size)
      → Carried pack unpack (traffic keys_request) keys_request (keys_answer (all_keys xss))
      → (s₁ : Store) × (s₂ : Store) × (rtable_size
            (some (peer pack unpack traffic (pos sock) s))
            store
          ≡ ret (pos (length (all_keys xss)), s₁))
        × (rtable_get_keys (some (peer pack unpack traffic (pos sock) s)) store
            ≡ ret (some_keys (all_keys xss), s₂))
  rtable-all_keys store c c' =
      let count = (table_get_keys-all_keys.0 t xss is).1 in
      let (s₁, sized) =
        rtable_size-received (peer pack unpack traffic (pos sock) s) store
          (wire (size_answer t.size)) refl (size_received c) in
      let (s₂, listed) =
        rtable_get_keys-received (peer pack unpack traffic (pos sock) s) store
          (wire (keys_answer (all_keys xss))) (wire-HasKeys (all_keys xss)) (keys_received c') in
      (
        s₁,
        s₂,
        sized ∙ ap (λ n. ret (pos n, s₁)) (sym count),
        listed ∙ ap (λ k. ret (k, s₂)) (shown_keys (all_keys xss)),
      )
