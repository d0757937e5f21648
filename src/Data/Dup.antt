-- ===== src/Data/Dup.antt =====
-- `data_dup` of source/data.c: what it copies, when it leaves its target, and what a reader of C
-- strings finds in the copy.
use hash_map_storage_service.Prelude.{
  ℕ, zero, suc, ◌-◌, ◌≤◌, ◌<◌, ◌≡◌, refl, ap, ◌∙◌, true, Option, none, some, List, [], ◌∷◌, ◌++◌,
  map, length, take, drop, replicate, length-take_le, length-append, take-take_append, arith,
  if◌then◌else◌, leb, Bool-cases, inl, inr,
}
use native.Mathlib.Nat.{sub-zero, zero-sub}
use hash_map_storage_service.Prelude.Int.{ℤ, pos, leb_ℤ}
use hash_map_storage_service.Prelude.Outcome.{ret, fault, Returns}
use hash_map_storage_service.Prelude.Text.{Text}
use hash_map_storage_service.Data.{
  Byte, Block, Data, data_of, int_bytes, memcpy, data_create, data_dup, c_string,
}

-- The value that `data_dup` returns for a size that fits.
abbrev pub dup_of : ℕ → Block → Data
dup_of n src = data_of (pos n) (some (take n src ++ drop n (int_bytes n ++ replicate 12 none)))

pub data_dup-eq :
    (n : ℕ) (src : Block)
    → 0 < n
    → n ≤ 16
    → n ≤ length src
    → data_dup (some (data_of (pos n) (some src))) ≡ ret (some (dup_of n src))
unfolding data_dup data_create memcpy
data_dup-eq n src p q h = ground arith

-- A copy of a copy is the copy.
pub data_dup-dup_of :
    (n : ℕ) (src : Block)
    → 0 < n
    → n ≤ 16
    → n ≤ length src
    → data_dup (some (dup_of n src)) ≡ ret (some (dup_of n src))
data_dup-dup_of n src p q h =
    data_dup-eq n (block n src) p q wide
    ∙ ap (λ b. ret (some (data_of (pos n) (some (b ++ drop n (int_bytes n ++ replicate 12 none))))))
        (take-take_append n src (drop n (int_bytes n ++ replicate 12 none)) h)
  where
    block : ℕ → Block → Block
    block n src = take n src ++ drop n (int_bytes n ++ replicate 12 none)

    wide : n ≤ length (block n src)
    wide = omega (
      arith,
      length-append (take n src) (drop n (int_bytes n ++ replicate 12 none)),
      length-take_le n src h,
    )

-- A copy of n bytes of `src`, in a block of sixteen bytes.
pub record IsCopy (n : ℕ) (src : Block) (r : Option Data) : Type 0 where
  pub block : Block
  pub is : r ≡ some (data_of (pos n) (some block))
  pub same : take n block ≡ take n src
  pub capacity : length block ≡ 16

pub length-drop {ℓ} : {A : Type ℓ} (n : ℕ) (xs : List A) → length (drop n xs) ≡ length xs - n
length-drop zero xs = omega arith
length-drop (suc n) [] = omega arith
length-drop (suc n) (x ∷ xs) = omega (arith, length-drop n xs)

-- `data_dup` returns a copy of a value of 1 to 16 bytes whose block holds that many; on a larger
-- size it writes behind the object that it allocated; a NULL value, NULL bytes or a size that is
-- not positive give NULL.
pub data_dup_lem :
    ((n : ℕ) (src : Block)
      → 0 < n
      → n ≤ 16
      → n ≤ length src
      → Returns (data_dup (some (data_of (pos n) (some src)))) (IsCopy n src))
    × ((n : ℕ) (src : Block) → 16 < n → data_dup (some (data_of (pos n) (some src))) ≡ fault)
    × (data_dup none ≡ ret none)
    × ((n : ℤ) → data_dup (some (data_of n none)) ≡ ret none)
    × ((n : ℤ) (src : Block)
        → leb_ℤ n (pos 0) ≡ true
        → data_dup (some (data_of n (some src))) ≡ ret none)
unfolding data_dup data_create memcpy
data_dup_lem = (
  λ n src p q h. (some (dup_of n src), data_dup-eq n src p q h, copy n src q h),
  λ n src p. ground arith,
  refl,
  λ n. refl,
  λ n src p. ground arith,
)
  where
    copy : (n : ℕ) (src : Block) → n ≤ 16 → n ≤ length src → IsCopy n src (some (dup_of n src))
    copy n src q h = record {
      block = take n src ++ drop n (int_bytes n ++ replicate 12 none);
      is = refl;
      same = take-take_append n src _ h;
      capacity =
          length-append (take n src) (drop n (int_bytes n ++ replicate 12 none))
          ∙ omega (arith, length-take_le n src h, length-drop n (int_bytes n ++ replicate 12 none));
    }

-- The bytes of a C string are not NUL.
abbrev pub NoNul : Text → Type 0
NoNul [] = Unit
NoNul (c ∷ s) = (0 < c) × NoNul s

pub c_string-nul : (s : Text) (b : Block) → NoNul s → c_string (map some s ++ some 0 ∷ b) ≡ ret s
unfolding c_string
c_string-nul [] b h = refl
c_string-nul (zero ∷ s) b h = absurd (omega arith)
c_string-nul (suc c ∷ s) b h = rw (c_string-nul s b h.1)

c_string-replicate :
    (s : Text) (k : ℕ) → NoNul s → c_string (map some s ++ replicate k none) ≡ fault
unfolding c_string
c_string-replicate [] zero h = refl
c_string-replicate [] (suc k) h = refl
c_string-replicate (zero ∷ s) k h = absurd (omega arith)
c_string-replicate (suc c ∷ s) k h = rw (c_string-replicate s k h.1)

pub length-map : (s : Text) → length (map {B = Byte} some s) ≡ length s
length-map [] = refl
length-map (c ∷ s) = ap suc (length-map s)

take-map : (s : Text) → take (length s) (map some s) ≡ map some s
take-map [] = refl
take-map (c ∷ s) = ap (λ t. some c ∷ t) (take-map s)

drop-replicate {ℓ} : {A : Type ℓ} (n k : ℕ) (a : A) → drop n (replicate k a) ≡ replicate (k - n) a
drop-replicate zero k a = rw sub-zero
drop-replicate (suc n) zero a = rw (zero-sub (suc n))
drop-replicate (suc n) (suc k) a = rw (drop-replicate n k a, suc-sub-suc k n)
  where
    suc-sub-suc : (k n : ℕ) → suc k - suc n ≡ k - n
    suc-sub-suc k n = omega arith

-- The block that a copy of the bytes of s ends up in.
abbrev pub copy_block : Text → Block
copy_block s =
    take (length s) (map some s) ++ drop (length s) (int_bytes (length s) ++ replicate 12 none)

-- A text of one to three bytes that was stored with `strlen` as its size is read back whole as a C
-- string, since zero bytes of the size follow it; one of 4 to 7 bytes runs into padding that was
-- never set, one of 16 bytes into the end of the block, and one of 8 to 15 bytes into the pointer,
-- where `c_string` stops with a fault as well.
pub c_string-data_dup :
    (s : Text)
    → NoNul s
    → 0 < length s
    → length s ≤ 16
    → (data_dup (some (data_of (pos (length s)) (some (map some s))))
        ≡ ret (some (data_of (pos (length s)) (some (copy_block s)))))
      × (c_string (copy_block s) ≡ (if leb (length s) 3 then ret s else fault))
c_string-data_dup s h p q = (
  copied s p q,
  elim (Bool-cases (leb (length s) 3)) [
    | inl few ↦ rw few (short s h p (ground arith))
    | inr many ↦ rw many (long s h (ground arith))
  ],
)
  where
    copied :
        (s : Text)
        → 0 < length s
        → length s ≤ 16
        → data_dup (some (data_of (pos (length s)) (some (map some s))))
          ≡ ret (some (data_of (pos (length s)) (some (copy_block s))))
    copied s p q = data_dup-eq (length s) (map some s) p q (omega (arith, length-map s))

    short : (s : Text) → NoNul s → 0 < length s → length s ≤ 3 → c_string (copy_block s) ≡ ret s
    short [] h p q = absurd (omega arith)
    short (a ∷ []) h p q = c_string-nul (a ∷ []) _ h
    short (a ∷ b ∷ []) h p q = c_string-nul (a ∷ b ∷ []) _ h
    short (a ∷ b ∷ c ∷ []) h p q = c_string-nul (a ∷ b ∷ c ∷ []) _ h
    short (a ∷ b ∷ c ∷ d ∷ s) h p q = absurd (omega arith)

    long : (s : Text) → NoNul s → 4 ≤ length s → c_string (copy_block s) ≡ fault
    long (a ∷ b ∷ c ∷ d ∷ s) h p =
        rw (take-map s, drop-replicate (length s) 12)
          (c_string-replicate (a ∷ b ∷ c ∷ d ∷ s) (12 - length s) h)
    long [] h p = absurd (omega arith)
    long (a ∷ []) h p = absurd (omega arith)
    long (a ∷ b ∷ []) h p = absurd (omega arith)
    long (a ∷ b ∷ c ∷ []) h p = absurd (omega arith)
