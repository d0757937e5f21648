-- ===== src/Tests/Codec.antt =====
-- A codec for the structs of include/sdmessage.pb-c.h that behaves as protobuf does on NULL strings, for the tests.
use hash_map_storage_service.Prelude.{
  ℕ, zero, suc, ◌≡◌, refl, ◌∙◌, ap, sym, Option, none, some, List, [], ◌∷◌, ◌++◌, map, length,
  arith,
}
use hash_map_storage_service.Prelude.Int.{pos, pos_part}
use hash_map_storage_service.Prelude.Text.{Text}
use hash_map_storage_service.Data.{Byte, Block}
use hash_map_storage_service.Message.{MessageT}
use hash_map_storage_service.Message.RoundTrip.{HasKeys}
use hash_map_storage_service.Message.Wire.{or_empty, wire_keys}

-- The length and the bytes.
abbrev put_text : Text → Block
put_text t = some (length t) ∷ map some t

abbrev put_keys : List Text → Block
put_keys [] = []
put_keys (k ∷ keys) = put_text k ++ put_keys keys

abbrev key_list : Option (List Text) → List Text
key_list none = []
key_list (some keys) = keys

-- The fields in turn, the keys with their number.
abbrev pub pack : MessageT → Block
pack q =
    some (pos_part q.opcode)
    ∷ some (pos_part q.c_type)
    ∷ some (pos_part q.data_size)
    ∷ (put_text (or_empty q.bytes)
        ++ (put_text (or_empty q.key) ++ (some q.n_keys ∷ put_keys (key_list q.keys))))

abbrev value : Byte → ℕ
value none = 0
value (some n) = n

abbrev read_bytes : ℕ → Block → Text × Block
read_bytes zero b = ([], b)
read_bytes (suc n) [] = ([], [])
read_bytes (suc n) (c ∷ b) = let r = read_bytes n b in (value c ∷ r.0, r.1)

abbrev get_text : Block → Text × Block
get_text [] = ([], [])
get_text (n ∷ b) = read_bytes (value n) b

abbrev get_keys : ℕ → Block → List Text
get_keys zero b = []
get_keys (suc n) b = let r = get_text b in r.0 ∷ get_keys n r.1

abbrev struct : ℕ → ℕ → ℕ → Text → Text → ℕ → Option (List Text) → MessageT
struct opcode c_type size bytes key n keys = record {
  opcode = pos opcode;
  c_type = pos c_type;
  data_size = pos size;
  bytes = some bytes;
  key = some key;
  n_keys = n;
  keys = wire_keys n keys;
}

abbrev with_keys : ℕ → ℕ → ℕ → Text → Text → Block → Option MessageT
with_keys opcode c_type size bytes key [] = none
with_keys opcode c_type size bytes key (n ∷ b) =
    some (struct opcode c_type size bytes key (value n) (some (get_keys (value n) b)))

abbrev pub unpack : Block → Option MessageT
unpack (o ∷ c ∷ s ∷ b) =
    let bytes = get_text b in
    let key = get_text bytes.1 in with_keys (value o) (value c) (value s) bytes.0 key.0 key.1
unpack b = none

read_bytes-map : (t : Text) (b : Block) → read_bytes (length t) (map some t ++ b) ≡ (t, b)
read_bytes-map [] b = refl
read_bytes-map (c ∷ t) b = ap (λ r. (c ∷ r.0, r.1)) (read_bytes-map t b)

append_nil : (b : Block) → b ++ [] ≡ b
append_nil [] = refl
append_nil (x ∷ b) = ap (λ r. x ∷ r) (append_nil b)

get_keys-put_keys : (keys : List Text) → get_keys (length keys) (put_keys keys) ≡ keys
get_keys-put_keys [] = refl
get_keys-put_keys (k ∷ keys) =
    ap (λ r. r.0 ∷ get_keys (length keys) r.1) (read_bytes-map k (put_keys keys))
    ∙ ap (λ ks. k ∷ ks) (get_keys-put_keys keys)

same_keys :
    (n : ℕ) (keys : Option (List Text))
    → HasKeys n keys
    → wire_keys n (some (get_keys n (put_keys (key_list keys)))) ≡ wire_keys n keys
same_keys zero keys e = refl
same_keys (suc n) none e = absurd (omega arith)
same_keys (suc n) (some keys) e =
    ap (λ k. some (get_keys k (put_keys keys))) (sym e) ∙ ap some (get_keys-put_keys keys)

-- What comes back for a struct whose array has the keys that it says.
pub unpack-pack :
    (opcode c_type size : ℕ) (bytes key : Option Text) (n : ℕ) (keys : Option (List Text))
    → HasKeys n keys
    → unpack (
        pack (record {
          opcode = pos opcode;
          c_type = pos c_type;
          data_size = pos size;
          bytes = bytes;
          key = key;
          n_keys = n;
          keys = keys;
        }))
      ≡ some (struct opcode c_type size (or_empty bytes) (or_empty key) n keys)
unpack-pack opcode c_type size bytes key n keys has =
    ap (λ r. let k = get_text r.1 in with_keys opcode c_type size r.0 k.0 k.1)
      (read_bytes-map (or_empty bytes)
        (put_text (or_empty key) ++ (some n ∷ put_keys (key_list keys))))
    ∙ ap (λ r. with_keys opcode c_type size (or_empty bytes) r.0 r.1)
        (read_bytes-map (or_empty key) (some n ∷ put_keys (key_list keys)))
    ∙ ap
        (λ ks.
          some (record (struct opcode c_type size (or_empty bytes) (or_empty key) n none) {
            keys = ks;
          }))
        (same_keys n keys has)
