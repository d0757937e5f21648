-- ===== src/Message/Free.antt =====
-- The blocks that `to_message` allocates and `free_message` frees.
use hash_map_storage_service.Prelude.{
  ℕ, ◌<◌, ◌≤◌, ◌≡◌, refl, ◌∙◌, Option, none, some, [], ◌∷◌, arith,
}
use hash_map_storage_service.Prelude.Outcome.{ret}
use hash_map_storage_service.Prelude.Text.{Text}
use hash_map_storage_service.Data.{Block}
use hash_map_storage_service.Message.{
  Ptr, Blocks, Store, Message, MessageT, write, alloc, string_block, dup_text, to_message,
  free_block, free_message,
}
use hash_map_storage_service.Message.RoundTrip.{HasKeys, message_keys-all}

-- The pointer is NULL or leads to a block, whose address is at least lo and less than hi.
abbrev pub IsBlock : Blocks → ℕ → ℕ → Ptr → Type 0
IsBlock h lo hi none = Unit
IsBlock h lo hi (some a) = (lo ≤ a) × (a < hi) × (b : Block) × (h a ≡ some b)

unfoldable pub removed : Blocks → Ptr → Blocks
removed h none = h
removed h (some a) = write h a none

free_block-removed :
    (h : Blocks) (lo hi : ℕ) (p : Ptr) → IsBlock h lo hi p → free_block h p ≡ ret (removed h p)
unfolding free_block removed
free_block-removed h lo hi none i = refl
free_block-removed h lo hi (some a) (_, _, b, e) = rw e refl

-- A block at an address from hi on, or below lo, is not touched.
pub above-removed :
    (h : Blocks) (lo hi top : ℕ) (p q : Ptr)
    → IsBlock h lo hi p
    → IsBlock h hi top q
    → IsBlock (removed h p) hi top q
unfolding removed write
above-removed h lo hi top p none i j = tt
above-removed h lo hi top none (some b) i j = j
above-removed h lo hi top (some a) (some b) i (le, lt, k, e) = (le, lt, k, ground arith)

pub IsBlock-same :
    (h g : Blocks) (lo hi : ℕ) (p : Ptr)
    → ((a : ℕ) → a < hi → g a ≡ h a)
    → IsBlock h lo hi p
    → IsBlock g lo hi p
IsBlock-same h g lo hi none same i = tt
IsBlock-same h g lo hi (some a) same (le, lt, b, e) = (le, lt, b, same a lt ∙ e)

-- The pointer leads to a copy of the string, at an address from lo on and below hi; NULL and "" have
-- none.
abbrev pub IsCopyAt : Blocks → ℕ → ℕ → Ptr → Option Text → Type 0
IsCopyAt h lo hi p none = Unit
IsCopyAt h lo hi p (some []) = Unit
IsCopyAt h lo hi p (some (c ∷ t)) =
    (a : ℕ) × (p ≡ some a) × (lo ≤ a) × (a < hi) × (h a ≡ some (string_block (c ∷ t)))

IsCopyAt-same :
    (h g : Blocks) (lo hi hi' : ℕ) (p : Ptr) (t : Option Text)
    → hi ≤ hi'
    → ((a : ℕ) → lo ≤ a → a < hi → g a ≡ h a)
    → IsCopyAt h lo hi p t
    → IsCopyAt g lo hi' p t
IsCopyAt-same h g lo hi hi' p none le same i = tt
IsCopyAt-same h g lo hi hi' p (some []) le same i = tt
IsCopyAt-same h g lo hi hi' p (some (c ∷ t)) le same (a, e, ge, lt, holds) =
    (a, e, ge, omega arith, same a ge lt ∙ holds)

dup_text-IsCopyAt :
    (s : Store) (t : Option Text)
    → IsCopyAt (dup_text s t).1.blocks s.fresh (dup_text s t).1.fresh (dup_text s t).0 t
unfolding dup_text alloc write
dup_text-IsCopyAt s none = tt
dup_text-IsCopyAt s (some []) = tt
dup_text-IsCopyAt s (some (c ∷ t)) = (s.fresh, refl, omega arith, omega arith, ground arith)

record Copy (s : Store) (r : Ptr × Store) : Type 0 where
  block : IsBlock (r.1).blocks s.fresh (r.1).fresh r.0
  keeps : (a : ℕ) → a < s.fresh → (r.1).blocks a ≡ s.blocks a
  grows : s.fresh ≤ (r.1).fresh

dup_text-Copy : (s : Store) (t : Option Text) → Copy s (dup_text s t)
unfolding dup_text alloc write
dup_text-Copy s none = record { block = tt; keeps = λ a lt. refl; grows = omega arith }
dup_text-Copy s (some []) = record { block = tt; keeps = λ a lt. refl; grows = omega arith }
dup_text-Copy s (some (c ∷ t)) = record {
  block = (omega arith, omega arith, string_block (c ∷ t), ground arith);
  keeps = λ a lt. ground arith;
  grows = omega arith;
}

-- A message whose blocks lie at addresses from lo up to mid, and from mid up to hi.
pub record Owns (h : Blocks) (lo hi : ℕ) (m : Message) : Type 0 where
  pub mid : ℕ
  pub least : lo ≤ mid
  pub most : mid ≤ hi
  pub bytes : IsBlock h lo mid m.bytes
  pub key : IsBlock h mid hi m.key

-- `free_message` succeeds on a message that owns its blocks.
pub free_message-Owns :
    (h : Blocks) (lo hi : ℕ) (m : Message)
    → Owns h lo hi m
    → free_message h (some m) ≡ ret (removed (removed h m.bytes) m.key)
unfolding free_message
free_message-Owns h lo hi m o =
    rw (free_block-removed h lo o.mid m.bytes o.bytes) (
      free_block-removed _ o.mid hi m.key (above-removed h lo o.mid hi m.bytes m.key o.bytes o.key))

pub Owns-same :
    (h g : Blocks) (lo hi : ℕ) (m : Message)
    → ((a : ℕ) → a < hi → g a ≡ h a)
    → Owns h lo hi m
    → Owns g lo hi m
Owns-same h g lo hi m same o = record {
  mid = o.mid;
  least = o.least;
  most = o.most;
  bytes = IsBlock-same h g lo o.mid m.bytes (λ a lt. same a (omega (arith, lt, o.most))) o.bytes;
  key = IsBlock-same h g o.mid hi m.key same o.key;
}

widen : (h : Blocks) (lo lo' hi : ℕ) (p : Ptr) → lo ≤ lo' → IsBlock h lo' hi p → IsBlock h lo hi p
widen h lo lo' hi none le i = tt
widen h lo lo' hi (some a) le (le', lt, b, e) = (omega arith, lt, b, e)

-- Freeing another message below leaves a message its blocks.
pub Owns-free :
    (h : Blocks) (lo hi top : ℕ) (m m' : Message)
    → Owns h lo hi m
    → Owns h hi top m'
    → Owns (removed (removed h m.bytes) m.key) hi top m'
Owns-free h lo hi top m m' o o' = record {
  mid = o'.mid;
  least = o'.least;
  most = o'.most;
  bytes = keep o'.mid hi m'.bytes (omega arith) o'.bytes;
  key = keep top o'.mid m'.key o'.least o'.key;
}
  where
    gone : IsBlock (removed h m.bytes) o.mid hi m.key
    gone = above-removed h lo o.mid hi m.bytes m.key o.bytes o.key

    keep :
        (top lo' : ℕ) (p : Ptr)
        → hi ≤ lo'
        → IsBlock h lo' top p
        → IsBlock (removed (removed h m.bytes) m.key) lo' top p
    keep top lo' p le i =
        apart m.key (m.bytes) o.mid hi lo' top p le
          (bounds m.bytes lo o.mid hi (omega (arith, o.most)) o.bytes)
          (bounds m.key o.mid hi hi (omega arith) o.key) i
      where
        -- the address, if there is one, is below hi
        bounds :
            (q : Ptr) (lo mid hi : ℕ)
            → mid ≤ hi
            → IsBlock h lo mid q
            → (a : ℕ) → q ≡ some a
            → a < hi
        bounds none lo mid hi le i a e = ground arith
        bounds (some b) lo mid hi le (_, lt, _, _) a e = ground arith

        apart :
            (q r : Ptr) (mid hi lo' top : ℕ) (p : Ptr)
            → hi ≤ lo'
            → ((a : ℕ) → r ≡ some a → a < hi)
            → ((a : ℕ) → q ≡ some a → a < hi)
            → IsBlock h lo' top p
            → IsBlock (removed (removed h r) q) lo' top p
        apart q r mid hi lo' top none le f g i = tt
        apart none none mid hi lo' top (some a) le f g i = unfold removed in i
        apart none (some x) mid hi lo' top (some a) le f g (ge, lt, b, e) =
            let fx : x < hi = f x refl in
            unfold removed in unfold write in (ge, lt, b, ground arith)
        apart (some y) none mid hi lo' top (some a) le f g (ge, lt, b, e) =
            let gy : y < hi = g y refl in
            unfold removed in unfold write in (ge, lt, b, ground arith)
        apart (some y) (some x) mid hi lo' top (some a) le f g (ge, lt, b, e) =
            let fx : x < hi = f x refl in
            let gy : y < hi = g y refl in
            unfold removed in unfold write in (ge, lt, b, ground arith)

-- `to_message` returns a message that owns new blocks, and keeps the blocks that were there.
pub to_message-Owns :
    (s : Store) (r : MessageT)
    → HasKeys r.n_keys r.keys
    → (m : Message) × (s' : Store) × (to_message s (some r) ≡ ret (some m, s'))
      × Owns s'.blocks s.fresh s'.fresh m
      × ((a : ℕ) → a < s.fresh → s'.blocks a ≡ s.blocks a)
      × (m.data_size ≡ r.data_size)
      × (m.n_keys ≡ r.n_keys)
      × (m.keys ≡ r.keys)
      × IsCopyAt s'.blocks s.fresh s'.fresh m.bytes r.bytes
unfolding to_message
to_message-Owns s r has_keys =
    let s₁ = (dup_text s r.bytes).1 in
    let c₁ = dup_text-Copy s r.bytes in
    let c₂ = dup_text-Copy s₁ r.key in
    (
      record {
        opcode = r.opcode;
        c_type = r.c_type;
        data_size = r.data_size;
        bytes = (dup_text s r.bytes).0;
        key = (dup_text s₁ r.key).0;
        n_keys = r.n_keys;
        keys = r.keys;
      },
      (dup_text s₁ r.key).1,
      rw (message_keys-all r.n_keys r.keys has_keys) refl,
      record {
        mid = s₁.fresh;
        least = c₁.grows;
        most = c₂.grows;
        bytes = IsBlock-same s₁.blocks _ s.fresh s₁.fresh _ c₂.keeps c₁.block;
        key = c₂.block;
      },
      λ a lt. c₂.keeps a (omega (arith, lt, c₁.grows)) ∙ c₁.keeps a lt,
      refl,
      refl,
      refl,
      IsCopyAt-same s₁.blocks _ s.fresh s₁.fresh _ _ r.bytes c₂.grows (λ a ge lt. c₂.keeps a lt)
          (dup_text-IsCopyAt s r.bytes),
    )

removed-above :
    (h : Blocks) (lo hi a : ℕ) (p : Ptr) → IsBlock h lo hi p → hi ≤ a → removed h p a ≡ h a
unfolding removed write
removed-above h lo hi a none i le = refl
removed-above h lo hi a (some b) (_, lt, _, _) le = ground arith

-- Freeing another message below leaves a copy its block.
pub IsCopyAt-free :
    (h : Blocks) (lo hi top : ℕ) (m : Message) (p : Ptr) (t : Option Text)
    → Owns h lo hi m
    → IsCopyAt h hi top p t
    → IsCopyAt (removed (removed h m.bytes) m.key) hi top p t
IsCopyAt-free h lo hi top m p t o i =
    let gone = above-removed h lo o.mid hi m.bytes m.key o.bytes o.key in
    IsCopyAt-same h _ hi top top p t (omega arith)
      (λ a ge lt.
        removed-above (removed h m.bytes) o.mid hi a m.key gone ge
        ∙ removed-above h lo o.mid a m.bytes o.bytes (omega (arith, o.most, ge)))
      i
