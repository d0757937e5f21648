-- ===== src/Message/Wire.antt =====
-- The structs of include/sdmessage.pb-c.h, packed and unpacked: a string that was not packed comes
-- back as the default of `MESSAGE_T__INIT`, which is "", and an array without elements as NULL.
use hash_map_storage_service.Prelude.{ℕ, zero, suc, ◌≡◌, refl, sym, Option, none, some, List, []}
use hash_map_storage_service.Prelude.Text.{Text}
use hash_map_storage_service.Message.{Store, MessageT, dup_text, to_message}

abbrev pub or_empty : Option Text → Text
or_empty none = []
or_empty (some t) = t

-- The array of n keys.
abbrev pub wire_keys : ℕ → Option (List Text) → Option (List Text)
wire_keys zero keys = none
wire_keys (suc n) keys = keys

-- The struct that comes back for one that is packed.
abbrev pub wire : MessageT → MessageT
wire q = record q {
  bytes = some (or_empty q.bytes);
  key = some (or_empty q.key);
  keys = wire_keys q.n_keys q.keys;
}

-- Without keys, the array is NULL.
abbrev pub IsCounted : ℕ → Option (List Text) → Type 0
IsCounted zero keys = keys ≡ none
IsCounted (suc n) keys = Unit

dup_text-or_empty : (s : Store) (t : Option Text) → dup_text s (some (or_empty t)) ≡ dup_text s t
unfolding dup_text
dup_text-or_empty s none = refl
dup_text-or_empty s (some t) = refl

wire_keys-same : (n : ℕ) (keys : Option (List Text)) → IsCounted n keys → wire_keys n keys ≡ keys
wire_keys-same zero keys e = sym e
wire_keys-same (suc n) keys e = refl

-- `to_message` makes the same message of both, since it turns "" into NULL.
pub to_message-wire :
    (s : Store) (q : MessageT)
    → IsCounted q.n_keys q.keys
    → to_message s (some (wire q)) ≡ to_message s (some q)
unfolding to_message
to_message-wire s q counted =
    rw
      (
        dup_text-or_empty s q.bytes,
        dup_text-or_empty (dup_text s q.bytes).1 q.key,
        wire_keys-same q.n_keys q.keys counted,
      )
      refl
