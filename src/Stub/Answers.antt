-- ===== src/Stub/Answers.antt =====
-- What the calls of source/client_stub.c return for an answer.
use hash_map_storage_service.Prelude.{
  ℕ, ◌<◌, ◌≤◌, ◌≡◌, refl, ◌∙◌, ap, length, length-append, map, Option, none, some, List, [], ◌∷◌,
  true, false, ◌==◌, if◌then◌else◌, Bool-cases, inl, inr, arith,
}
use hash_map_storage_service.Prelude.Int.{pos, minus_one, eqb_ℤ, ltb_ℤ, leb_ℤ}
use hash_map_storage_service.Prelude.Outcome.{ret}
use hash_map_storage_service.Prelude.Text.{Text}
use hash_map_storage_service.Data.{data_of, data_create2}
use hash_map_storage_service.Data.Dup.{NoNul, dup_of, data_dup-eq, length-map}
use hash_map_storage_service.Message.{Store, MessageT, string_block}
use hash_map_storage_service.Message.Free.{IsCopyAt}
use mathlib.Core.Path.{subst}
use hash_map_storage_service.Message.Opcode
use hash_map_storage_service.Message.Content
use hash_map_storage_service.Message.RoundTrip.{HasKeys}
use hash_map_storage_service.Stub.{
  Exchange, received, request, rtable_size, rtable_verify, rtable_get_keys, rtable_del, rtable_get,
  get_answer, block_at,
}
use hash_map_storage_service.Stub.Ask.{ask_lem, close_lem}

module _ (send : MessageT → Exchange) (s : Store) (r : MessageT)
    (has_keys : HasKeys r.n_keys r.keys) where
  -- When the server answers a size request, `rtable_size` returns the size in the answer.
  pub rtable_size-received :
      send (request Opcode.size Content.none none none (pos 0)) ≡ received r
      → (s' : Store) × (rtable_size (some send) s ≡ ret (r.data_size, s'))
  unfolding rtable_size
  rtable_size-received answer =
      let (m, s₁, asked, h) =
        ask_lem send s (request Opcode.size Content.none none none (pos 0)) r
          (record { bytes = tt; key = tt; keys = refl }) has_keys answer in
      let (s₂, closed) = close_lem m.data_size r m s₁ h in
      (s₂, rw (asked, closed) (ap (λ n. ret (n, s₂)) h.data_size))

  -- When the server answers a verify request for a number that is not negative, `rtable_verify`
  -- returns 0 if the answer holds 0, and -1 otherwise.
  pub rtable_verify-received :
      (n : ℕ)
      → send (request Opcode.verify Content.none none none (pos n)) ≡ received r
      → (s' : Store) × (rtable_verify (some send) s (pos n)
          ≡ ret (if eqb_ℤ r.data_size (pos 0) then pos 0 else minus_one, s'))
  unfolding rtable_verify
  rtable_verify-received n answer =
      let (m, s₁, asked, h) =
        ask_lem send s (request Opcode.verify Content.none none none (pos n)) r
          (record { bytes = tt; key = tt; keys = refl }) has_keys answer in
      let (s₂, closed) =
        close_lem (if eqb_ℤ m.data_size (pos 0) then pos 0 else minus_one) r m s₁ h in
      let natural : ltb_ℤ (pos n) (pos 0) ≡ false = ground arith in
      (
        s₂,
        rw (natural, asked, closed)
            (ap (λ k. ret (if eqb_ℤ k (pos 0) then pos 0 else minus_one, s₂)) h.data_size),
      )

  -- When the server answers a request for the keys, `rtable_get_keys` returns the keys in the
  -- answer, and NULL if there are none.
  pub rtable_get_keys-received :
      send (request Opcode.getkeys Content.none none none (pos 0)) ≡ received r
      → (s' : Store) × (rtable_get_keys (some send) s
          ≡ ret (if r.n_keys == 0 then none else r.keys, s'))
  unfolding rtable_get_keys
  rtable_get_keys-received answer =
      let (m, s₁, asked, h) =
        ask_lem send s (request Opcode.getkeys Content.none none none (pos 0)) r
          (record { bytes = tt; key = tt; keys = refl }) has_keys answer in
      let nothing : Option (List Text) = none in
      let (s₂, closed) = close_lem nothing r m s₁ h in
      elim (Bool-cases (r.n_keys == 0)) [
        | inl empty ↦ (s₂, rw (asked, h.n_keys, empty) closed)
        | inr some_keys ↦ (s₁, rw (asked, h.n_keys, some_keys) (ap (λ k. ret (k, s₁)) h.keys))
      ]

  -- When the server answers a delete of a key that is not empty, `rtable_del` returns 0, whatever
  -- the answer says, an error included.
  pub rtable_del-received :
      (c : ℕ) (key : Text)
      → NoNul (c ∷ key)
      → send (request Opcode.del Content.key (some (c ∷ key)) none (pos 0)) ≡ received r
      → (s' : Store) × (rtable_del (some send) s (some (c ∷ key)) ≡ ret (pos 0, s'))
  unfolding rtable_del
  rtable_del-received c key text answer =
      let (m, s₁, asked, h) =
        ask_lem send s (request Opcode.del Content.key (some (c ∷ key)) none (pos 0)) r
          (record { bytes = tt; key = text; keys = refl }) has_keys answer in
      let (s₂, closed) = close_lem (pos 0) r m s₁ h in (s₂, rw asked closed)

  -- When the answer to a get of a key that is not empty has a size of 0, `rtable_get` returns one
  -- byte, the NUL of the empty string.
  pub rtable_get-empty :
      r.data_size ≡ pos 0
      → (c : ℕ) (key : Text) → NoNul (c ∷ key)
      → send (request Opcode.get Content.key (some (c ∷ key)) none (pos 0)) ≡ received r
      → (s' : Store) × (rtable_get (some send) s (some (c ∷ key))
          ≡ ret (some (data_of (pos 1) (some (some 0 ∷ []))), s'))
  unfolding rtable_get get_answer data_create2
  rtable_get-empty size c key text answer =
      let (m, s₁, asked, h) =
        ask_lem send s (request Opcode.get Content.key (some (c ∷ key)) none (pos 0)) r
          (record { bytes = tt; key = text; keys = refl }) has_keys answer in
      let (s₂, closed) = close_lem (some (data_of (pos 1) (some (some 0 ∷ [])))) r m s₁ h in
      let none_there : leb_ℤ m.data_size (pos 0) ≡ true = ground (arith, h.data_size, size) in
      (s₂, rw asked (rw none_there closed))

  -- When the answer to a get of a key that is not empty has a text of 1 to 16 bytes with its length
  -- as the size, `rtable_get` returns a value with these bytes.
  pub rtable_get-received :
      (text : Text)
      → 0 < length text
      → length text ≤ 16
      → r.data_size ≡ pos (length text)
      → r.bytes ≡ some text
      → (c : ℕ) (key : Text) → NoNul (c ∷ key)
      → send (request Opcode.get Content.key (some (c ∷ key)) none (pos 0)) ≡ received r
      → (s' : Store) × (rtable_get (some send) s (some (c ∷ key))
          ≡ ret (some (dup_of (length text) (string_block text)), s'))
  unfolding rtable_get get_answer block_at data_create2
  rtable_get-received [] positive small size bytes c key no_nul answer = absurd (omega arith)
  rtable_get-received (d ∷ text) positive small size bytes c key no_nul answer =
      let n = length (d ∷ text) in
      let wide : n ≤ length (string_block (d ∷ text)) =
        omega (arith, length-append (map some (d ∷ text)) (some 0 ∷ []), length-map (d ∷ text)) in
      let (m, s₁, asked, h) =
        ask_lem send s (request Opcode.get Content.key (some (c ∷ key)) none (pos 0)) r
          (record { bytes = tt; key = no_nul; keys = refl }) has_keys answer in
      let (s₂, closed) = close_lem (some (dup_of n (string_block (d ∷ text)))) r m s₁ h in
      let (a, at_a, _, _, holds) = subst (IsCopyAt s₁.blocks h.lo s₁.fresh m.bytes) bytes h.text in
      let sized : m.data_size ≡ pos n = h.data_size ∙ size in
      let some_there : leb_ℤ (pos n) (pos 0) ≡ false = ground (arith, positive) in
      let copied = data_dup-eq n (string_block (d ∷ text)) positive small wide in
      (s₂, rw asked (rw (sized, some_there, at_a) (rw (holds, some_there) (rw copied closed))))
