-- ===== src/Startup/Extremes.antt =====
-- The least and the greatest path in `table_skel_init` of source/table_skel.c.
use mathlib.Core.List.{Permᴰ}
use mathlib.Core.List.Permᴰ
use hash_map_storage_service.Prelude.{
  suc, ◌≡◌, refl, ◌∙◌, ap, true, some, List, [], ◌∷◌, length, arith,
}
use hash_map_storage_service.Prelude.Int.{ℤ, pos, leb_ℤ, minus_one}
use hash_map_storage_service.Prelude.Outcome.{ret}
use hash_map_storage_service.Prelude.Text.{Text}
use hash_map_storage_service.Startup.{
  Range, no_range, lower, raise, range_loop, order_loop, order_children,
}
use hash_map_storage_service.Startup.Ranges.{IsGreatest, Names, range_loop-Extended}
use hash_map_storage_service.Startup.Order.{
  Numbering, IsNumbered, IsLeast, IsOrdered, IsLeast-perm, le_refl, order_loop-IsOrdered,
}

le_antisymm : (a b : ℤ) → leb_ℤ a b ≡ true → leb_ℤ b a ≡ true → a ≡ b
le_antisymm a b p q = ground arith

Permᴰ-length : {ps qs : List Text} → Permᴰ ps qs → length ps ≡ length qs
Permᴰ-length Permᴰ.nil = refl
Permᴰ-length (Permᴰ.cons e d) = ap suc (Permᴰ-length d)
Permᴰ-length (Permᴰ.swap e e') = refl
Permᴰ-length (Permᴰ.trans d d') = Permᴰ-length d ∙ Permᴰ-length d'

module _ (num : Numbering) where
  -- What `order_children` finds.
  pub record Found (paths : List Text) : Type 0 where
    pub range : Range
    pub first : Text
    pub rest : List Text
    pub least : Text
    pub greatest : Text
    pub run : order_children paths ≡ ret (range, first ∷ rest)
    pub perm : Permᴰ paths (first ∷ rest)
    pub ordered : IsOrdered num (first ∷ rest)
    pub path_min : range.path_min ≡ some least
    pub path_max : range.path_max ≡ some greatest
    pub is_first : num least ≡ num first
    pub is_greatest : IsGreatest num greatest paths

  abbrev Sorted : List Text → List Text → Type 0
  Sorted paths ordered =
      (order_loop (length paths) paths ≡ ret ordered) × Permᴰ paths ordered × IsOrdered num ordered

  first_range :
      (p : Text)
      → leb_ℤ (num p) (pos 99999999) ≡ true
      → leb_ℤ minus_one (num p) ≡ true
      → Names num (raise p (num p) (lower p (num p) no_range)) p p
  unfolding raise lower
  first_range p hi lo =
      let run : raise p (num p) (lower p (num p) no_range)
          ≡ record { id_min = num p; path_min = some p; id_max = num p; path_max = some p } =
        rw hi (rw lo refl) in
      record {
        path_min = ap (λ x. x.path_min) run;
        id_min = ap (λ x. x.id_min) run;
        path_max = ap (λ x. x.path_max) run;
        id_max = ap (λ x. x.id_max) run;
      }

  ordered_cons :
      (p : Text) (ps : List Text)
      → IsNumbered num (p ∷ ps)
      → (first : Text) × (rest : List Text) × Sorted (p ∷ ps) (first ∷ rest)
  ordered_cons p ps ns =
      let (ordered, run, perm, sorted) =
        order_loop-IsOrdered num (length (p ∷ ps)) (p ∷ ps) refl ns in
      nonempty ordered (run, perm, sorted)
    where
      nonempty :
          (ordered : List Text)
          → Sorted (p ∷ ps) ordered
          → (first : Text) × (rest : List Text) × Sorted (p ∷ ps) (first ∷ rest)
      nonempty [] sorted = absurd (omega (arith, Permᴰ-length sorted.1))
      nonempty (first ∷ rest) sorted = (first, rest, sorted)

  -- If each path has a number, and that of the first is from -1 to 99999999, the paths are put in
  -- the order of their numbers, the path printed as the maximum has the greatest number, and the
  -- one printed as the minimum has the number of the first path in that order.
  pub order_children-Found :
      (p : Text) (ps : List Text)
      → IsNumbered num (p ∷ ps)
      → leb_ℤ (num p) (pos 99999999) ≡ true
      → leb_ℤ minus_one (num p) ≡ true
      → Found (p ∷ ps)
  unfolding order_children range_loop
  order_children-Found p ps ns hi lo =
      let x =
        range_loop-Extended num ps (raise p (num p) (lower p (num p) no_range)) p p
          (first_range p hi lo) ns.1 in
      let (first, rest, sorted) = ordered_cons p ps ns in
      let (run, perm, ordered) = sorted in
      let least : IsLeast num x.a' (p ∷ ps) = (x.below, x.least) in
      let is_least : IsLeast num first (p ∷ ps) =
        IsLeast-perm num first (Permᴰ.symm perm) (le_refl num (num first), ordered.0) in
      record {
        range = x.r';
        first = first;
        rest = rest;
        least = x.a';
        greatest = x.b';
        run = rw ns.0 (rw x.run (rw x.names.path_max (rw x.names.path_min (rw run refl))));
        perm = perm;
        ordered = ordered;
        path_min = x.names.path_min;
        path_max = x.names.path_max;
        is_first =
            le_antisymm (num x.a') (num first) (IsLeast-perm num x.a' perm least).0
              (x.tight first is_least.0 is_least.1);
        is_greatest = (x.above, x.greatest);
      }
