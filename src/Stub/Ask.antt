-- ===== src/Stub/Ask.antt =====
-- A request of source/client_stub.c and its answer.
use hash_map_storage_service.Prelude.{ℕ, ◌≡◌, refl, ◌∙◌, ap, sym, Option}
use hash_map_storage_service.Prelude.Outcome.{Outcome, ret, ◌>>=◌, deref}
use hash_map_storage_service.Message.{Store, Message, MessageT, to_message_t}
use hash_map_storage_service.Message.RoundTrip.{
  IsString, HasKeys, drop_empty, to_message_t-to_message,
}
use hash_map_storage_service.Message.Free.{
  IsCopyAt, IsCopyAt-free, Owns, Owns-same, Owns-free, removed, free_message-Owns, to_message-Owns,
}
use hash_map_storage_service.Stub.{Exchange, received, receive, network_send_receive, ask, close}

-- What is packed for a request: empty strings are left out.
abbrev pub packed : MessageT → MessageT
packed q = record q { bytes = drop_empty q.bytes; key = drop_empty q.key }

-- The strings of a request are C strings, and it has the keys that it announces.
pub record IsSendable (q : MessageT) : Type 0 where
  pub bytes : IsString q.bytes
  pub key : IsString q.key
  pub keys : HasKeys q.n_keys q.keys

-- A message that holds what the struct r says, in blocks of its own.
pub record Holds (r : MessageT) (m : Message) (s : Store) : Type 0 where
  pub lo : ℕ
  pub owns : Owns s.blocks lo s.fresh m
  pub data_size : m.data_size ≡ r.data_size
  pub n_keys : m.n_keys ≡ r.n_keys
  pub keys : m.keys ≡ r.keys
  pub text : IsCopyAt s.blocks lo s.fresh m.bytes r.bytes

-- What `to_message_t` makes of the message that a call returned.
unfoldable pub repack : Outcome (Option Message × Store) → Outcome MessageT
repack o = o >>= λ r. deref r.0 >>= λ m. to_message_t (r.1).blocks m

-- A request that is answered with r gives a message that holds r, and leaves no block of its own.
pub ask_lem :
    (send : MessageT → Exchange) (s : Store) (q r : MessageT)
    → IsSendable q
    → HasKeys r.n_keys r.keys
    → send (packed q) ≡ received r
    → (m : Message) × (s' : Store) × (ask send s q ≡ ret (m, s')) × Holds r m s'
unfolding ask network_send_receive receive repack
ask_lem send s q r is has_keys answer =
    let (m, s₁, made, own, _, _, _, _, _) = to_message-Owns s q is.keys in
    let (m', s₁', made', back) = to_message_t-to_message s q is.bytes is.key is.keys in
    let sent : to_message_t s₁.blocks m ≡ ret (packed q) = ap repack (sym made ∙ made') ∙ back in
    let (a, s₂, got, own', keeps, size, n, keys, copy) = to_message-Owns s₁ r has_keys in
    let own₂ = Owns-same s₁.blocks s₂.blocks s.fresh s₁.fresh m keeps own in
    (
      a,
      record s₂ { blocks = removed (removed s₂.blocks m.bytes) m.key },
      rw made (
          rw sent
            (rw answer (rw got (rw (free_message-Owns s₂.blocks s.fresh s₁.fresh m own₂) refl)))),
      record {
        lo = s₁.fresh;
        owns = Owns-free s₂.blocks s.fresh s₁.fresh s₂.fresh m a own₂ own';
        data_size = size;
        n_keys = n;
        keys = keys;
        text = IsCopyAt-free s₂.blocks s.fresh s₁.fresh s₂.fresh m a.bytes r.bytes own₂ copy;
      },
    )

-- The answer can be freed.
pub close_lem {ℓ} :
    {A : Type ℓ} (x : A) (r : MessageT) (m : Message) (s : Store)
    → Holds r m s
    → (s' : Store) × (close x m s ≡ ret (x, s'))
unfolding close
close_lem x r m s h = (
  record s { blocks = removed (removed s.blocks m.bytes) m.key },
  rw (free_message-Owns s.blocks h.lo s.fresh m h.owns) refl,
)
