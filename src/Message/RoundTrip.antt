-- ===== src/Message/RoundTrip.antt =====
-- A message that was received and is sent on.
use hash_map_storage_service.Prelude.{
  ℕ, zero, suc, ◌<◌, ◌≡◌, refl, ◌∙◌, Option, none, some, List, [], ◌∷◌, length, arith,
}
use hash_map_storage_service.Prelude.Outcome.{ret}
use hash_map_storage_service.Prelude.Text.{Text}
use hash_map_storage_service.Data.Dup.{NoNul, c_string-nul}
use hash_map_storage_service.Message.{
  Ptr, Blocks, Store, Message, MessageT, write, alloc, string_block, read_text, dup_text, dup_keys,
  message_keys, message_t_keys, to_message, to_message_t,
}

-- The empty string is received as NULL.
abbrev pub drop_empty : Option Text → Option Text
drop_empty none = none
drop_empty (some []) = none
drop_empty (some (c ∷ t)) = some (c ∷ t)

abbrev pub IsString : Option Text → Type 0
IsString none = Unit
IsString (some t) = NoNul t

-- The array has the number of keys that the message says.
abbrev pub HasKeys : ℕ → Option (List Text) → Type 0
HasKeys n none = n ≡ 0
HasKeys n (some keys) = length keys ≡ n

pub dup_keys-all : (n : ℕ) (keys : List Text) → length keys ≡ n → dup_keys n keys ≡ ret keys
unfolding dup_keys
dup_keys-all zero [] e = refl
dup_keys-all zero (k ∷ keys) e = absurd (omega arith)
dup_keys-all (suc n) [] e = absurd (omega arith)
dup_keys-all (suc n) (k ∷ keys) e = rw (dup_keys-all n keys (omega arith)) refl

pub message_keys-all :
    (n : ℕ) (keys : Option (List Text)) → HasKeys n keys → message_keys n keys ≡ ret keys
unfolding message_keys
message_keys-all zero none e = refl
message_keys-all (suc n) none e = absurd (omega arith)
message_keys-all zero (some keys) e = rw (dup_keys-all zero keys e) refl
message_keys-all (suc n) (some keys) e = rw (dup_keys-all (suc n) keys e) refl

pub message_t_keys-all :
    (n : ℕ) (keys : Option (List Text)) → HasKeys n keys → message_t_keys n keys ≡ ret keys
unfolding message_t_keys
message_t_keys-all n none e = refl
message_t_keys-all n (some keys) e = rw (dup_keys-all n keys e) refl

-- A copy is read back, and keeps the blocks that were there.
pub record Copied (s : Store) (t : Option Text) (r : Ptr × Store) : Type 0 where
  pub reads :
      (h : Blocks)
      → ((a : ℕ) → a < (r.1).fresh → h a ≡ (r.1).blocks a)
      → read_text h r.0 ≡ ret (drop_empty t)
  pub keeps : (a : ℕ) → a < s.fresh → (r.1).blocks a ≡ s.blocks a
  pub grows : (a : ℕ) → a < s.fresh → a < (r.1).fresh

pub dup_text-Copied : (s : Store) (t : Option Text) → IsString t → Copied s t (dup_text s t)
unfolding dup_text read_text alloc write
dup_text-Copied s none i = record {
  reads = λ h same. refl;
  keeps = λ a lt. refl;
  grows = λ a lt. lt;
}
dup_text-Copied s (some []) i = record {
  reads = λ h same. refl;
  keeps = λ a lt. refl;
  grows = λ a lt. lt;
}
dup_text-Copied s (some (c ∷ t)) i = record {
  reads = λ h same.
      let at_fresh : h s.fresh ≡ some (string_block (c ∷ t)) =
        same s.fresh (omega arith) ∙ ground arith in
      rw at_fresh (rw (c_string-nul (c ∷ t) [] i) refl);
  keeps = λ a lt. ground arith;
  grows = λ a lt. omega arith;
}

-- Packing a message that was just received gives the message back, with empty strings as NULL.
pub to_message_t-to_message :
    (s : Store) (m : MessageT)
    → IsString m.bytes
    → IsString m.key
    → HasKeys m.n_keys m.keys
    → (msg : Message) × (s' : Store) × (to_message s (some m) ≡ ret (some msg, s'))
      × (to_message_t s'.blocks msg
          ≡ ret (record m { bytes = drop_empty m.bytes; key = drop_empty m.key }))
unfolding to_message to_message_t
to_message_t-to_message s m b k n =
    let first = dup_text-Copied s m.bytes b in
    let second = dup_text-Copied (dup_text s m.bytes).1 m.key k in
    (
      record {
        opcode = m.opcode;
        c_type = m.c_type;
        data_size = m.data_size;
        bytes = (dup_text s m.bytes).0;
        key = (dup_text (dup_text s m.bytes).1 m.key).0;
        n_keys = m.n_keys;
        keys = m.keys;
      },
      (dup_text (dup_text s m.bytes).1 m.key).1,
      rw (message_keys-all m.n_keys m.keys n) refl,
      rw
          (
            first.reads (dup_text (dup_text s m.bytes).1 m.key).1.blocks second.keeps,
            second.reads (dup_text (dup_text s m.bytes).1 m.key).1.blocks (λ a lt. refl),
            message_t_keys-all m.n_keys m.keys n,
          )
          refl,
    )
