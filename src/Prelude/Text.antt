-- ===== src/Prelude/Text.antt =====
-- C strings: the bytes before the NUL. `strcmp` is used only as a test for equality.
use mathlib.Core.Path.{◌≡◌, refl, ap}
use mathlib.Core.Bool.{Bool, true, false, ◌&&◌}
use mathlib.Core.Option.{Option, none, some}
use mathlib.Core.List.{List, [], ◌∷◌}
use Prim.Native.Nat.{ℕ}
use native.Mathlib.Omega.{arith}
use hash_map_storage_service.Prelude.Tests.{◌==◌}
use hash_map_storage_service.Prelude.Outcome.{Outcome, ret, fault}

abbrev pub Text : Type 0
Text = List ℕ

unfoldable pub text_eq : Text → Text → Bool
text_eq [] [] = true
text_eq [] (c ∷ cs) = false
text_eq (b ∷ bs) [] = false
text_eq (b ∷ bs) (c ∷ cs) = (b == c) && text_eq bs cs

-- `strcmp(a, b) == 0`, a fault at NULL
unfoldable pub strcmp_eq : Option Text → Option Text → Outcome Bool
strcmp_eq none _ = fault
strcmp_eq (some a) none = fault
strcmp_eq (some a) (some b) = ret (text_eq a b)

pub text_eq_refl : (a : Text) → text_eq a a ≡ true
unfolding text_eq
text_eq_refl [] = refl
text_eq_refl (b ∷ bs) = ground (arith, text_eq_refl bs)

pub eq_of_text_eq : (a b : Text) → text_eq a b ≡ true → a ≡ b
unfolding text_eq
eq_of_text_eq [] [] h = refl
eq_of_text_eq [] (c ∷ cs) h = ground arith
eq_of_text_eq (b ∷ bs) [] h = ground arith
eq_of_text_eq (b ∷ bs) (c ∷ cs) h = ground (arith, eq_of_text_eq bs cs)

pub text_eq_symm : (a b : Text) → text_eq a b ≡ text_eq b a
unfolding text_eq
text_eq_symm [] [] = refl
text_eq_symm [] (c ∷ cs) = refl
text_eq_symm (b ∷ bs) [] = refl
text_eq_symm (b ∷ bs) (c ∷ cs) = ground (arith, text_eq_symm bs cs)

pub text_eq_congr : (a b c : Text) → text_eq a b ≡ true → text_eq a c ≡ text_eq b c
text_eq_congr a b c h = ap (λ t. text_eq t c) (eq_of_text_eq a b h)
