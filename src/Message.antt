-- ===== src/Message.antt =====
-- source/message.c, include/message-private.h: messages, the blocks that they own, and their
-- conversion from and to the struct that protobuf packs.
--
-- The text and the key of a message are blocks at addresses of a store, in which a freed address
-- holds nothing and an address is not used twice. The array of keys is a value.
pub mod Opcode
pub mod Content
pub mod RoundTrip
pub mod Wire
pub mod Free
pub mod Freed
pub mod Print
use hash_map_storage_service.Prelude.{
  ℕ, zero, suc, Bool, true, false, Option, none, some, List, [], ◌∷◌, ◌++◌, map, ◌==◌,
  if◌then◌else◌,
}
use hash_map_storage_service.Prelude.Int.{ℤ, pos}
use hash_map_storage_service.Prelude.Outcome.{Outcome, ret, fault, ◌>>=◌, deref}
use hash_map_storage_service.Prelude.Text.{Text}
use hash_map_storage_service.Data.{Block, c_string}

abbrev pub Ptr : Type 0
Ptr = Option ℕ

abbrev pub Blocks : Type 0
Blocks = ℕ → Option Block

pub record Store : Type 0 where
  pub blocks : Blocks
  pub fresh : ℕ

-- `struct message_t`, less the field base, which only protobuf reads.
pub record Message : Type 0 where
  pub opcode : ℤ
  pub c_type : ℤ
  pub data_size : ℤ
  pub bytes : Ptr
  pub key : Ptr
  pub n_keys : ℕ
  pub keys : Option (List Text)

-- `struct _MessageT`, with the C strings that its pointers lead to.
pub record MessageT : Type 0 where
  pub opcode : ℤ
  pub c_type : ℤ
  pub data_size : ℤ
  pub bytes : Option Text
  pub key : Option Text
  pub n_keys : ℕ
  pub keys : Option (List Text)

unfoldable pub write : Blocks → ℕ → Option Block → Blocks
write h a b c = if c == a then b else h c

-- A new block, and its address.
unfoldable pub alloc : Store → Block → ℕ × Store
alloc s b = (s.fresh, record { blocks = write s.blocks s.fresh (some b); fresh = suc s.fresh })

-- The bytes of a C string with its NUL.
abbrev pub string_block : Text → Block
string_block t = map some t ++ some 0 ∷ []

-- The C string at a pointer that may be NULL.
unfoldable pub read_text : Blocks → Ptr → Outcome (Option Text)
read_text h none = ret none
read_text h (some a) = deref (h a) >>= λ b. c_string b >>= λ t. ret (some t)

-- NULL and "" become NULL, any other string a copy.
unfoldable pub dup_text : Store → Option Text → Ptr × Store
dup_text s none = (none, s)
dup_text s (some []) = (none, s)
dup_text s (some (c ∷ t)) = let (a, s') = alloc s (string_block (c ∷ t)) in (some a, s')

-- `strdup` of n elements of an array, a fault behind its end.
unfoldable pub dup_keys : ℕ → List Text → Outcome (List Text)
dup_keys zero keys = ret []
dup_keys (suc n) [] = fault
dup_keys (suc n) (k ∷ keys) = dup_keys n keys >>= λ ks. ret (k ∷ ks)

-- With keys announced and no array, `message->keys` stays indeterminate, which is a fault here.
pub message_keys : ℕ → Option (List Text) → Outcome (Option (List Text))
message_keys zero none = ret none
message_keys (suc n) none = fault
message_keys n (some keys) = dup_keys n keys >>= λ ks. ret (some ks)

unfoldable pub to_message : Store → Option MessageT → Outcome (Option Message × Store)
unfolding message_keys
to_message s none = ret (none, s)
to_message s (some m) = do
  let (bytes, s₁) = dup_text s m.bytes
  let (key, s₂) = dup_text s₁ m.key
  keys ← message_keys m.n_keys m.keys
  ret (
    some (record {
      opcode = m.opcode;
      c_type = m.c_type;
      data_size = m.data_size;
      bytes = bytes;
      key = key;
      n_keys = m.n_keys;
      keys = keys;
    }),
    s₂,
  )

pub message_t_keys : ℕ → Option (List Text) → Outcome (Option (List Text))
message_t_keys n none = ret none
message_t_keys n (some keys) = dup_keys n keys >>= λ ks. ret (some ks)

-- The strings are read when the struct is packed, which follows at once in every caller.
unfoldable pub to_message_t : Blocks → Message → Outcome MessageT
unfolding message_t_keys
to_message_t h m = do
  bytes ← read_text h m.bytes
  key ← read_text h m.key
  keys ← message_t_keys m.n_keys m.keys
  ret (record {
    opcode = m.opcode;
    c_type = m.c_type;
    data_size = m.data_size;
    bytes = bytes;
    key = key;
    n_keys = m.n_keys;
    keys = keys;
  })

-- `free` of a pointer that may be NULL, a fault if it was freed before.
unfoldable pub free_block : Blocks → Ptr → Outcome Blocks
free_block h none = ret h
free_block h (some a) = deref (h a) >>= λ _. ret (write h a none)

unfoldable pub free_message : Blocks → Option Message → Outcome Blocks
free_message h none = ret h
free_message h (some m) = free_block h m.bytes >>= λ h'. free_block h' m.key
