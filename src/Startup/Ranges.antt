-- ===== src/Startup/Ranges.antt =====
-- The range of the numbers in `table_skel_init` of source/table_skel.c.
use hash_map_storage_service.Prelude.{
  ◌≡◌, ◌⊎◌, refl, ◌∙◌, ap, sym, true, false, inl, inr, some, List, [], ◌∷◌, arith, Bool-cases,
}
use hash_map_storage_service.Prelude.Int.{ℤ, leb_ℤ}
use hash_map_storage_service.Prelude.Outcome.{ret, ◌>>=◌}
use hash_map_storage_service.Prelude.Text.{Text}
use hash_map_storage_service.Startup.{Range, lower, raise, range_loop}
use hash_map_storage_service.Startup.Order.{Numbering, IsNumbered, IsLeast, le_trans, le_refl}

-- The number of p is at least that of each of the paths.
abbrev pub IsGreatest : Numbering → Text → List Text → Type 0
IsGreatest num p [] = Unit
IsGreatest num p (q ∷ qs) = (leb_ℤ (num q) (num p) ≡ true) × IsGreatest num p qs

module _ (num : Numbering) where
  -- The range r names the paths a and b.
  pub record Names (r : Range) (a b : Text) : Type 0 where
    pub path_min : r.path_min ≡ some a
    pub id_min : r.id_min ≡ num a
    pub path_max : r.path_max ≡ some b
    pub id_max : r.id_max ≡ num b

  -- The range r' after the paths ps, from one that names a and b.
  pub record Extended (r : Range) (a b : Text) (ps : List Text) : Type 0 where
    pub r' : Range
    pub a' : Text
    pub b' : Text
    pub run : range_loop ps r ≡ ret r'
    pub names : Names r' a' b'
    pub below : leb_ℤ (num a') (num a) ≡ true
    pub above : leb_ℤ (num b) (num b') ≡ true
    pub least : IsLeast num a' ps
    pub greatest : IsGreatest num b' ps
    pub tight :
        (z : Text) → leb_ℤ (num z) (num a) ≡ true → IsLeast num z ps → leb_ℤ (num z) (num a') ≡ true

  le_total : (a b : ℤ) → leb_ℤ a b ≡ false → leb_ℤ b a ≡ true
  le_total a b h = ground arith

  -- What `lower` leaves of a range whose least path is a.
  record Lowered (r : Range) (a p : Text) : Type 0 where
    a' : Text
    path_min : (lower p (num p) r).path_min ≡ some a'
    id_min : (lower p (num p) r).id_min ≡ num a'
    path_max : (lower p (num p) r).path_max ≡ r.path_max
    id_max : (lower p (num p) r).id_max ≡ r.id_max
    down : leb_ℤ (num a') (num a) ≡ true
    below : leb_ℤ (num a') (num p) ≡ true
    one_of : (a' ≡ a) ⊎ (a' ≡ p)

  lower-Lowered : (r : Range) (a p : Text) → r.path_min ≡ some a → r.id_min ≡ num a → Lowered r a p
  unfolding lower
  lower-Lowered r a p path id = elim (Bool-cases (leb_ℤ (num p) r.id_min)) [
    | inl h ↦
        let run : lower p (num p) r ≡ record r { id_min = num p; path_min = some p } = rw h refl in
        record {
          a' = p;
          path_min = ap (λ x. x.path_min) run;
          id_min = ap (λ x. x.id_min) run;
          path_max = ap (λ x. x.path_max) run;
          id_max = ap (λ x. x.id_max) run;
          down = ap (leb_ℤ (num p)) (sym id) ∙ h;
          below = le_refl num (num p);
          one_of = inr refl;
        }
    | inr h ↦
        let run : lower p (num p) r ≡ r = rw h refl in
        record {
          a' = a;
          path_min = ap (λ x. x.path_min) run ∙ path;
          id_min = ap (λ x. x.id_min) run ∙ id;
          path_max = ap (λ x. x.path_max) run;
          id_max = ap (λ x. x.id_max) run;
          down = le_refl num (num a);
          below = le_total (num p) (num a) (ap (leb_ℤ (num p)) (sym id) ∙ h);
          one_of = inl refl;
        }
  ]

  -- What `raise` leaves of a range whose greatest path is b.
  record Raised (r : Range) (b p : Text) : Type 0 where
    b' : Text
    path_max : (raise p (num p) r).path_max ≡ some b'
    id_max : (raise p (num p) r).id_max ≡ num b'
    path_min : (raise p (num p) r).path_min ≡ r.path_min
    id_min : (raise p (num p) r).id_min ≡ r.id_min
    up : leb_ℤ (num b) (num b') ≡ true
    above : leb_ℤ (num p) (num b') ≡ true

  raise-Raised : (r : Range) (b p : Text) → r.path_max ≡ some b → r.id_max ≡ num b → Raised r b p
  unfolding raise
  raise-Raised r b p path id = elim (Bool-cases (leb_ℤ r.id_max (num p))) [
    | inl h ↦
        let run : raise p (num p) r ≡ record r { id_max = num p; path_max = some p } = rw h refl in
        record {
          b' = p;
          path_max = ap (λ x. x.path_max) run;
          id_max = ap (λ x. x.id_max) run;
          path_min = ap (λ x. x.path_min) run;
          id_min = ap (λ x. x.id_min) run;
          up = ap (λ x. leb_ℤ x (num p)) (sym id) ∙ h;
          above = le_refl num (num p);
        }
    | inr h ↦
        let run : raise p (num p) r ≡ r = rw h refl in
        record {
          b' = b;
          path_max = ap (λ x. x.path_max) run ∙ path;
          id_max = ap (λ x. x.id_max) run ∙ id;
          path_min = ap (λ x. x.path_min) run;
          id_min = ap (λ x. x.id_min) run;
          up = le_refl num (num b);
          above = le_total (num b) (num p) (ap (λ x. leb_ℤ x (num p)) (sym id) ∙ h);
        }
  ]

  IsGreatest-trans :
      (p q : Text) (ps : List Text)
      → leb_ℤ (num q) (num p) ≡ true
      → IsGreatest num q ps
      → IsGreatest num p ps
  IsGreatest-trans p q [] le l = tt
  IsGreatest-trans p q (x ∷ ps) le (h, l) =
      (le_trans (num x) (num q) (num p) h le, IsGreatest-trans p q ps le l)

  pub range_loop-Extended :
      (ps : List Text) (r : Range) (a b : Text)
      → Names r a b
      → IsNumbered num ps
      → Extended r a b ps
  unfolding range_loop
  range_loop-Extended [] r a b n ns = record {
    r' = r;
    a' = a;
    b' = b;
    run = refl;
    names = n;
    below = le_refl num (num a);
    above = le_refl num (num b);
    least = tt;
    greatest = tt;
    tight = λ z h l. h;
  }
  range_loop-Extended (p ∷ ps) r a b n (np, ns) =
      let lo = lower-Lowered r a p n.path_min n.id_min in
      let r₁ = lower p (num p) r in
      let hi = raise-Raised r₁ b p (lo.path_max ∙ n.path_max) (lo.id_max ∙ n.id_max) in
      let n₂ : Names (raise p (num p) r₁) lo.a' hi.b' = record {
        path_min = hi.path_min ∙ lo.path_min;
        id_min = hi.id_min ∙ lo.id_min;
        path_max = hi.path_max;
        id_max = hi.id_max;
      } in
      let x = range_loop-Extended ps (raise p (num p) r₁) lo.a' hi.b' n₂ ns in
      record {
        r' = x.r';
        a' = x.a';
        b' = x.b';
        run = ap (λ o. o >>= λ n. range_loop ps (raise p n (lower p n r))) np ∙ x.run;
        names = x.names;
        below = le_trans (num x.a') (num lo.a') (num a) x.below lo.down;
        above = le_trans (num b) (num hi.b') (num x.b') hi.up x.above;
        least = (le_trans (num x.a') (num lo.a') (num p) x.below lo.below, x.least);
        greatest = (le_trans (num p) (num hi.b') (num x.b') hi.above x.above, x.greatest);
        tight = λ z h (hp, l).
            x.tight z
              (elim lo.one_of [
                | inl e ↦ ap (λ y. leb_ℤ (num z) (num y)) e ∙ h
                | inr e ↦ ap (λ y. leb_ℤ (num z) (num y)) e ∙ hp
              ])
              l;
      }
