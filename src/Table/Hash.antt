-- ===== src/Table/Hash.antt =====
-- `hash` of source/table.c: its range.
use hash_map_storage_service.Prelude.{
  ℕ, ◌+◌, ◌*◌, ◌%◌, ◌<◌, ◌≡◌, refl, ◌∙◌, ap, [], ◌∷◌, length, arith,
}
use native.Mathlib.Nat.{mod-lt, zero-mod}
use hash_map_storage_service.Prelude.Int.{ℤ, pos, pos_part, add_int, rem}
use hash_map_storage_service.Prelude.Text.{Text}
use hash_map_storage_service.Table.{char_value, hash_count, hash}

-- Every byte is below n.
abbrev pub BytesBelow : ℕ → Text → Type 0
BytesBelow n [] = Unit
BytesBelow n (c ∷ s) = (c < n) × BytesBelow n s

hash_count-ascii :
    (key : Text) (c : ℕ)
    → BytesBelow 128 key
    → c + 127 * length key < 2147483648
    → (r : ℕ) × (hash_count key (pos c) ≡ pos r)
unfolding hash_count add_int
hash_count-ascii [] c b lt = (c, refl)
hash_count-ascii (x ∷ key) c b lt =
    let (r, run) = hash_count-ascii key (c + x) b.1 (omega (arith, b.0)) in
    (r, ap (hash_count key) (add c x b.0 (omega arith)) ∙ run)
  where
    add : (c x : ℕ) → x < 128 → c + x < 2147483648 → add_int (pos c) (char_value x) ≡ pos (c + x)
    add c x h lt = ground arith

rem-lt : (a : ℤ) (n i : ℕ) → 0 < n → rem a n ≡ pos i → i < n
unfolding rem
rem-lt a n i h e = ground (arith, mod-lt (pos_part a) h)

-- An index that is not negative lies in the array.
pub hash-lt : (key : Text) (n i : ℕ) → 0 < n → hash key n ≡ pos i → i < n
unfolding hash
hash-lt key n i h e = rem-lt (hash_count key (pos 0)) n i h e

-- For a key of ASCII characters that is short enough for an int to hold 127 times its length, `hash`
-- is an index below the number of lists, of which there is at least one.
pub hash-ascii :
    (key : Text) (n : ℕ)
    → 0 < n
    → BytesBelow 128 key
    → 127 * length key < 2147483648
    → (i : ℕ) × (hash key n ≡ pos i) × (i < n)
unfolding hash rem
hash-ascii key n h b short =
    let (r, run) = hash_count-ascii key 0 b (omega arith) in
    (r % n, ap (λ a. rem a n) run ∙ of_pos r, mod-lt r h)
  where
    of_pos : (r : ℕ) → rem (pos r) n ≡ pos (r % n)
    of_pos r = rw (zero-mod n) (ground arith)
