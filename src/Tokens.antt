-- ===== src/Tokens.antt =====
-- `strtok`, `atoi`, `strcpy` and `fgets` of the C library, as source/table_skel.c, source/client_stub.c and
-- source/table-client.c use them.
pub mod Words
use hash_map_storage_service.Prelude.{
  ℕ, zero, suc, ◌+◌, ◌-◌, ◌*◌, Bool, true, false, ◌&&◌, ◌||◌, not, Option, none, some, List, [],
  ◌∷◌, ◌++◌, length, ltb, leb, ◌==◌, if◌then◌else◌,
}
use hash_map_storage_service.Prelude.Int.{ℤ, pos, negsuc, sub_ℕ}
use hash_map_storage_service.Prelude.Outcome.{Outcome, ret, fault, ◌>>=◌}
use hash_map_storage_service.Prelude.Text.{Text}

abbrev pub colon : Text
colon = 58 ∷ []

unfoldable pub is_in : ℕ → Text → Bool
is_in c [] = false
is_in c (d ∷ ds) = (c == d) || is_in c ds

unfoldable pub skip : Text → Text → Text
skip delims [] = []
skip delims (c ∷ s) = elim (is_in c delims) [ true ↦ skip delims s | false ↦ c ∷ s ]

-- The bytes up to the next delimiter, and what is behind that delimiter.
unfoldable pub cut : Text → Text → Text × Text
cut delims [] = ([], [])
cut delims (c ∷ s) = elim (is_in c delims) [
  | true ↦ ([], s)
  | false ↦ let (token, rest) = cut delims s in (c ∷ token, rest)
]

unfoldable pub token_of : Text → Text → Option Text × Text
token_of delims [] = (none, [])
token_of delims (c ∷ s) = let (token, rest) = cut delims (c ∷ s) in (some token, rest)

-- The token, NULL if there is none, and the string that a call with NULL goes on with.
unfoldable pub strtok : Text → Text → Option Text × Text
unfolding token_of
strtok delims s = token_of delims (skip delims s)

abbrev pub is_digit : ℕ → Bool
is_digit c = leb 48 c && leb c 57

-- the digits at the start, behind the number n
unfoldable pub digits : ℕ → Text → ℕ
digits n [] = n
digits n (c ∷ s) = elim (is_digit c) [ true ↦ digits (10 * n + (c - 48)) s | false ↦ n ]

unfoldable pub signed : Text → ℤ
unfolding digits
signed [] = pos 0
signed (c ∷ s) =
    if c == 45
    then sub_ℕ 0 (digits 0 s)
    else if c == 43
    then pos (digits 0 s)
    else pos (digits 0 (c ∷ s))

-- White space is a blank, or 9 to 13. Numbers that do not fit in an int do not occur.
unfoldable pub atoi : Text → ℤ
unfolding signed
atoi s = signed (skip (32 ∷ 9 ∷ 10 ∷ 11 ∷ 12 ∷ 13 ∷ []) s)

-- `strcpy` to an array of n bytes, which must have room for the NUL; NULL is a fault.
unfoldable pub strcpy : ℕ → Option Text → Outcome Text
strcpy n none = fault
strcpy n (some s) = if ltb (length s) n then ret s else fault

-- The bytes up to a newline, at most n of them, and the bytes behind them.
unfoldable pub read_line : ℕ → Text → Text × Text
read_line zero s = ([], s)
read_line (suc n) [] = ([], [])
read_line (suc n) (c ∷ s) = let r = read_line n s in if c == 10 then (c ∷ [], s) else (c ∷ r.0, r.1)

-- `fgets` into an array of that size: what it stores and what is left of the input, or NULL at the end.
unfoldable pub fgets : ℕ → Text → Option (Text × Text)
unfolding read_line
fgets size [] = none
fgets size (c ∷ s) = some (read_line (size - 1) (c ∷ s))
