-- ===== src/Stub/NoAnswer.antt =====
-- The calls of source/client_stub.c without an answer.
use hash_map_storage_service.Prelude.{
  ℕ, ◌≡◌, refl, ◌∙◌, ap, sym, ◌⊎◌, inl, inr, none, some, ◌∷◌, false, arith,
}
use hash_map_storage_service.Prelude.Int.{ℤ, pos, ltb_ℤ}
use hash_map_storage_service.Prelude.Outcome.{ret, fault}
use hash_map_storage_service.Prelude.Text.{Text}
use hash_map_storage_service.Data.Dup.{NoNul}
use hash_map_storage_service.Message.{Store, MessageT, to_message_t}
use hash_map_storage_service.Message.Opcode
use hash_map_storage_service.Message.Content
use hash_map_storage_service.Message.RoundTrip.{to_message_t-to_message}
use hash_map_storage_service.Message.Free.{free_message-Owns, to_message-Owns}
use hash_map_storage_service.Stub.{
  Exchange, not_written, not_read, not_unpacked, receive, network_send_receive, request, ask,
  rtable_size, rtable_verify, rtable_get_keys, rtable_del, rtable_get,
}
use hash_map_storage_service.Stub.Ask.{IsSendable, packed, repack}

-- Every exchange fails, and so that the call comes back from its writes and reads.
abbrev pub IsSilent : (MessageT → Exchange) → Type 0
IsSilent send =
    (q : MessageT) → (send q ≡ not_written) ⊎ ((send q ≡ not_read) ⊎ (send q ≡ not_unpacked))

module _ (send : MessageT → Exchange) (s : Store) (silent : IsSilent send) where
  ask-silent : (q : MessageT) → IsSendable q → ask send s q ≡ fault
  unfolding ask network_send_receive receive repack
  ask-silent q is =
      let (m, s₁, made, own, _, _, _, _, _) = to_message-Owns s q is.keys in
      let (m', s₁', made', back) = to_message_t-to_message s q is.bytes is.key is.keys in
      let sent : to_message_t s₁.blocks m ≡ ret (packed q) = ap repack (sym made ∙ made') ∙ back in
      let freed = free_message-Owns s₁.blocks s.fresh s₁.fresh m own in
      elim (silent (packed q)) [
        | inl e ↦ rw made (rw sent (rw e (rw freed refl)))
        | inr (inl e) ↦ rw made (rw sent (rw e refl))
        | inr (inr e) ↦ rw made (rw sent (rw e (rw freed refl)))
      ]

  -- If a request is not written, a call of `read` for the answer fails, or the answer does not unpack,
  -- then the calls that ask for the size, the keys, the state of an operation or the value of a key
  -- that is not empty, and the delete of such a key, do not return an error: they write through the
  -- NULL answer, or go on with the request that the failed read has freed.
  pub rtable-silent_fault :
      (n c : ℕ) (key : Text)
      → NoNul (c ∷ key)
      → (rtable_size (some send) s ≡ fault)
        × (rtable_get_keys (some send) s ≡ fault)
        × (rtable_verify (some send) s (pos n) ≡ fault)
        × (rtable_get (some send) s (some (c ∷ key)) ≡ fault)
        × (rtable_del (some send) s (some (c ∷ key)) ≡ fault)
  unfolding rtable_size rtable_get_keys rtable_verify rtable_get rtable_del
  rtable-silent_fault n c key text =
      let plain : (op : ℤ) (size : ℤ) → IsSendable (request op Content.none none none size) =
        λ op size. record { bytes = tt; key = tt; keys = refl } in
      let keyed : (op : ℤ) → IsSendable (request op Content.key (some (c ∷ key)) none (pos 0)) =
        λ op. record { bytes = tt; key = text; keys = refl } in
      let natural : ltb_ℤ (pos n) (pos 0) ≡ false = ground arith in
      (
        rw (ask-silent (request Opcode.size Content.none none none (pos 0)) (plain _ _)) refl,
        rw (ask-silent (request Opcode.getkeys Content.none none none (pos 0)) (plain _ _)) refl,
        rw (natural, ask-silent (request Opcode.verify Content.none none none (pos n)) (plain _ _))
            refl,
        rw (ask-silent (request Opcode.get Content.key (some (c ∷ key)) none (pos 0)) (keyed _))
            refl,
        rw (ask-silent (request Opcode.del Content.key (some (c ∷ key)) none (pos 0)) (keyed _))
            refl,
      )
