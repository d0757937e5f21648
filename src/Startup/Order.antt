-- ===== src/Startup/Order.antt =====
-- The loops that order the children in `table_skel_init` of source/table_skel.c.
use mathlib.Core.List.{Permᴰ}
use mathlib.Core.List.Permᴰ
use hash_map_storage_service.Prelude.{
  ℕ, zero, suc, ◌≡◌, refl, ap, true, inl, inr, List, [], ◌∷◌, length, arith, Bool-cases,
}
use hash_map_storage_service.Prelude.Int.{ℤ, leb_ℤ, ltb_ℤ}
use hash_map_storage_service.Prelude.Outcome.{ret}
use hash_map_storage_service.Prelude.Text.{Text}
use hash_map_storage_service.Startup.{id_of, swap_loop, order_loop}

-- The number in each path.
abbrev pub Numbering : Type 0
Numbering = Text → ℤ

-- num gives the number of each path.
abbrev pub IsNumbered : Numbering → List Text → Type 0
IsNumbered num [] = Unit
IsNumbered num (p ∷ ps) = (id_of p ≡ ret (num p)) × IsNumbered num ps

-- The number of p is at most that of each of the paths.
abbrev pub IsLeast : Numbering → Text → List Text → Type 0
IsLeast num p [] = Unit
IsLeast num p (q ∷ qs) = (leb_ℤ (num p) (num q) ≡ true) × IsLeast num p qs

abbrev pub IsOrdered : Numbering → List Text → Type 0
IsOrdered num [] = Unit
IsOrdered num (p ∷ ps) = IsLeast num p ps × IsOrdered num ps

pub le_trans : (a b c : ℤ) → leb_ℤ a b ≡ true → leb_ℤ b c ≡ true → leb_ℤ a c ≡ true
le_trans a b c p q = ground arith

module _ (num : Numbering) where
  IsLeast-trans :
      (p q : Text) (ps : List Text)
      → leb_ℤ (num p) (num q) ≡ true
      → IsLeast num q ps
      → IsLeast num p ps
  IsLeast-trans p q [] le l = tt
  IsLeast-trans p q (x ∷ ps) le (h, l) =
      (le_trans (num p) (num q) (num x) le h, IsLeast-trans p q ps le l)

  pub IsLeast-perm :
      {ps qs : List Text} (p : Text) → Permᴰ ps qs → IsLeast num p ps → IsLeast num p qs
  IsLeast-perm p Permᴰ.nil l = l
  IsLeast-perm p (Permᴰ.cons e d) (h, l) = (rw (← e) h, IsLeast-perm p d l)
  IsLeast-perm p (Permᴰ.swap e e') (h, (h', l)) = (rw (← e') h', (rw (← e) h, l))
  IsLeast-perm p (Permᴰ.trans d d') l = IsLeast-perm p d' (IsLeast-perm p d l)

  pub IsNumbered-perm : {ps qs : List Text} → Permᴰ ps qs → IsNumbered num ps → IsNumbered num qs
  IsNumbered-perm Permᴰ.nil l = l
  IsNumbered-perm (Permᴰ.cons e d) (h, l) = (rw (← e) h, IsNumbered-perm d l)
  IsNumbered-perm (Permᴰ.swap e e') (h, (h', l)) = (rw (← e') h', (rw (← e) h, l))
  IsNumbered-perm (Permᴰ.trans d d') l = IsNumbered-perm d' (IsNumbered-perm d l)

  -- The least path comes first, and the others are a permutation.
  record Swapped (p : Text) (ps : List Text) : Type 0 where
    first : Text
    rest : List Text
    run : swap_loop p ps ≡ ret (first, rest)
    perm : Permᴰ (p ∷ ps) (first ∷ rest)
    below : leb_ℤ (num first) (num p) ≡ true
    least : IsLeast num first rest
    size : length rest ≡ length ps

  pub le_refl : (a : ℤ) → leb_ℤ a a ≡ true
  le_refl a = ground arith

  swap_loop-Swapped : (p : Text) (ps : List Text) → IsNumbered num (p ∷ ps) → Swapped p ps
  unfolding swap_loop
  swap_loop-Swapped p [] n = record {
    first = p;
    rest = [];
    run = refl;
    perm = Permᴰ.refl (p ∷ []);
    below = le_refl (num p);
    least = tt;
    size = refl;
  }
  swap_loop-Swapped p (q ∷ qs) (np, (nq, ns)) = elim (Bool-cases (ltb_ℤ (num q) (num p))) [
    | inl less ↦
        let s = swap_loop-Swapped q qs (nq, ns) in
        let q_below : leb_ℤ (num q) (num p) ≡ true = ground (arith, less) in
        let down = le_trans (num s.first) (num q) (num p) s.below q_below in
        record {
          first = s.first;
          rest = p ∷ s.rest;
          run = rw np (rw nq (ground (arith, s.run)));
          perm = Permᴰ.trans (Permᴰ.cons refl s.perm) (Permᴰ.swap refl refl);
          below = down;
          least = (down, s.least);
          size = ap suc s.size;
        }
    | inr more ↦
        let s = swap_loop-Swapped p qs (np, ns) in
        let p_below : leb_ℤ (num p) (num q) ≡ true = ground (arith, more) in
        record {
          first = s.first;
          rest = q ∷ s.rest;
          run = rw np (rw nq (ground (arith, s.run)));
          perm =
              Permᴰ.trans (Permᴰ.swap refl refl)
                (Permᴰ.trans (Permᴰ.cons refl s.perm) (Permᴰ.swap refl refl));
          below = s.below;
          least = (le_trans (num s.first) (num p) (num q) s.below p_below, s.least);
          size = ap suc s.size;
        }
  ]

  -- If each path has a number, the loops over i and j return a permutation of the paths in the
  -- order of their numbers.
  pub order_loop-IsOrdered :
      (n : ℕ) (ps : List Text)
      → length ps ≡ n
      → IsNumbered num ps
      → (ordered : List Text) × (order_loop n ps ≡ ret ordered)
        × Permᴰ ps ordered
        × IsOrdered num ordered
  unfolding order_loop
  order_loop-IsOrdered zero [] e ns = ([], refl, Permᴰ.nil, tt)
  order_loop-IsOrdered zero (p ∷ ps) e ns = absurd (omega arith)
  order_loop-IsOrdered (suc n) [] e ns = absurd (omega arith)
  order_loop-IsOrdered (suc n) (p ∷ ps) e ns =
      let s = swap_loop-Swapped p ps ns in
      let (ordered, run, perm, sorted) =
        order_loop-IsOrdered n s.rest (omega (arith, s.size)) (IsNumbered-perm s.perm ns).1 in
      (
        s.first ∷ ordered,
        rw (s.run, run) refl,
        Permᴰ.trans s.perm (Permᴰ.cons refl perm),
        (IsLeast-perm s.first perm s.least, sorted),
      )
