-- ===== src/Message/Freed.antt =====
-- Messages of source/message.c after `free_message`.
use hash_map_storage_service.Prelude.{
  ℕ, ◌≡◌, sym, inl, inr, refl, ◌∙◌, ap, ◌⊎◌, Option, none, some, arith,
}
use hash_map_storage_service.Prelude.Outcome.{Outcome, ret, fault, out_of_fuel, ◌>>=◌, deref}
use hash_map_storage_service.Data.{Block}
use hash_map_storage_service.Message.{Blocks, Message, Ptr, write, free_block, free_message}

pub fault_is_not_ret : {A : Type 0} {a : A} → fault ≡ ret a → ⊥
fault_is_not_ret e = ground arith

fuel_is_not_ret : {A : Type 0} {a : A} → out_of_fuel ≡ ret a → ⊥
fuel_is_not_ret e = ground arith

-- The key or the data of the message is the block at a.
abbrev pub OwnsBlock : Message → ℕ → Type 0
OwnsBlock m a = (m.key ≡ some a) ⊎ (m.bytes ≡ some a)

of_ret : Blocks → Outcome Blocks → Blocks
of_ret h (ret g) = g
of_ret h fault = h
of_ret h out_of_fuel = h

-- A call that returned is a call on an object that was there.
freed :
    (h h' : Blocks) (a : ℕ) (o : Option Block)
    → (deref o >>= λ _. ret (write h a none)) ≡ ret h'
    → h' ≡ write h a none
unfolding of_ret
freed h h' a none e = absurd (fault_is_not_ret e)
freed h h' a (some b) e = sym (ap (of_ret h) e)

pub free_block-keeps :
    (h h' : Blocks) (p : Ptr) (b : ℕ) → h b ≡ none → free_block h p ≡ ret h' → h' b ≡ none
unfolding free_block write of_ret
free_block-keeps h h' none b gone e = ap (λ g. g b) (sym (ap (of_ret h) e)) ∙ gone
free_block-keeps h h' (some a) b gone e = rw (freed h h' a (h a) e) (ground arith)

free_block-gone : (h h' : Blocks) (a : ℕ) → free_block h (some a) ≡ ret h' → h' a ≡ none
unfolding free_block write
free_block-gone h h' a e = rw (freed h h' a (h a) e) (ground arith)

-- The heap between the two calls of `free`.
both :
    (h h' : Blocks) (p q : Ptr)
    → (free_block h p >>= λ g. free_block g q) ≡ ret h'
    → (g : Blocks) × (free_block h p ≡ ret g) × (free_block g q ≡ ret h')
both h h' p q e = go (free_block h p) refl e
  where
    go :
        (o : Outcome Blocks)
        → free_block h p ≡ o
        → (o >>= λ g. free_block g q) ≡ ret h'
        → (g : Blocks) × (free_block h p ≡ ret g) × (free_block g q ≡ ret h')
    go (ret g) same e = (g, same, e)
    go fault same e = absurd (fault_is_not_ret e)
    go out_of_fuel same e = absurd (fuel_is_not_ret e)

-- The blocks of a freed message hold nothing.
pub free_message-gone :
    (h h' : Blocks) (m : Message) (a : ℕ)
    → OwnsBlock m a
    → free_message h (some m) ≡ ret h'
    → h' a ≡ none
unfolding free_message
free_message-gone h h' m a (inl needs) e =
    let (g, first, second) = both h h' m.bytes m.key e in
    free_block-gone g h' a (sym (ap (free_block g) needs) ∙ second)
free_message-gone h h' m a (inr needs) e =
    let (g, first, second) = both h h' m.bytes m.key e in
    free_block-keeps g h' m.key a (free_block-gone h g a (sym (ap (free_block h) needs) ∙ first))
      second

-- No outcome of `free_block` is out of fuel.
pub free_block-cases :
    (h : Blocks) (p : Ptr) → (free_block h p ≡ fault) ⊎ ((g : Blocks) × (free_block h p ≡ ret g))
unfolding free_block
free_block-cases h none = inr (h, refl)
free_block-cases h (some a) = at_block (h a)
  where
    at_block :
        (o : Option Block)
        → ((deref o >>= λ _. ret (write h a none)) ≡ fault)
          ⊎ ((g : Blocks) × ((deref o >>= λ _. ret (write h a none)) ≡ ret g))
    at_block none = inl refl
    at_block (some b) = inr (write h a none, refl)

pub free_block-none : (h : Blocks) (a : ℕ) → h a ≡ none → free_block h (some a) ≡ fault
unfolding free_block
free_block-none h a e = rw e refl

-- A message with a block cannot be freed when the block is gone.
pub free_message-none :
    (h : Blocks) (m : Message) (a : ℕ)
    → OwnsBlock m a
    → h a ≡ none
    → free_message h (some m) ≡ fault
unfolding free_message
free_message-none h m a (inr owns) gone = rw owns (rw (free_block-none h a gone) refl)
free_message-none h m a (inl owns) gone = elim (free_block-cases h m.bytes) [
  | inl e ↦ rw e refl
  | inr (g, e) ↦
      rw e (ap (free_block g) owns ∙ free_block-none g a (free_block-keeps h g m.bytes a gone e))
]

pub free_message-cases :
    (h : Blocks) (m : Message)
    → (free_message h (some m) ≡ fault) ⊎ ((g : Blocks) × (free_message h (some m) ≡ ret g))
unfolding free_message
free_message-cases h m = elim (free_block-cases h m.bytes) [
  | inl e ↦ inl (rw e refl)
  | inr (g, e) ↦ elim (free_block-cases g m.key) [
    | inl e' ↦ inl (rw e e')
    | inr (g', e') ↦ inr (g', rw e e')
  ]
]
