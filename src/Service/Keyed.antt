-- ===== src/Service/Keyed.antt =====
-- A request of source/client_stub.c that carries a key, and its message at the server.
use hash_map_storage_service.Prelude.{ℕ, ◌≡◌, refl, some, none, ◌∷◌, arith}
use hash_map_storage_service.Prelude.Int.{ℤ, pos}
use hash_map_storage_service.Prelude.Outcome.{ret}
use hash_map_storage_service.Prelude.Text.{Text}
use hash_map_storage_service.Data.Dup.{NoNul}
use hash_map_storage_service.Message.{
  Store, Message, MessageT, string_block, alloc, write, to_message, to_message_t, dup_text,
  read_text, free_block, free_message,
}
use hash_map_storage_service.Message.Content
use hash_map_storage_service.Message.RoundTrip.{dup_text-Copied}
use hash_map_storage_service.Skeleton.{Server}
use hash_map_storage_service.Stub.{request}

abbrev pub key_request : ℤ → Text → MessageT
key_request opcode key = request opcode Content.key (some key) none (pos 0)

-- An answer that keeps the key of the request.
abbrev pub key_answer : ℤ → ℤ → ℤ → Text → MessageT
key_answer opcode c_type size key = request opcode c_type (some key) none size

module _ (s : Server) (c : ℕ) (key : Text) where
  -- The message of a request or an answer with the key.
  abbrev pub key_message : ℤ → ℤ → ℤ → Message
  key_message opcode c_type size = record {
    opcode = opcode;
    c_type = c_type;
    data_size = size;
    bytes = none;
    key = some s.store.fresh;
    n_keys = 0;
    keys = none;
  }

  -- The store with the key of the request.
  abbrev pub with_key : Store
  with_key = (alloc s.store (string_block (c ∷ key))).1

  abbrev pub arrived : Server
  arrived = record s { store = with_key }

  pub made :
      (opcode : ℤ)
      → to_message s.store (some (key_request opcode (c ∷ key)))
        ≡ ret (some (key_message opcode Content.key (pos 0)), with_key)
  unfolding to_message dup_text alloc
  made opcode = refl

  module _ (no_nul : NoNul (c ∷ key)) where
    pub key_there : read_text with_key.blocks (some s.store.fresh) ≡ ret (some (c ∷ key))
    unfolding dup_text alloc
    key_there =
        (dup_text-Copied s.store (some (c ∷ key)) no_nul).reads with_key.blocks (λ a lt. refl)

    pub packed :
        (opcode c_type size : ℤ)
        → to_message_t with_key.blocks (key_message opcode c_type size)
          ≡ ret (key_answer opcode c_type size (c ∷ key))
    unfolding to_message_t read_text
    packed opcode c_type size = rw key_there refl

  pub freed :
      (opcode c_type size : ℤ)
      → free_message with_key.blocks (some (key_message opcode c_type size))
        ≡ ret (write with_key.blocks s.store.fresh none)
  unfolding free_message free_block alloc write
  freed opcode c_type size = ground arith
