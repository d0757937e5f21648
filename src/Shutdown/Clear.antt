-- ===== src/Shutdown/Clear.antt =====
-- Freeing the blocks at a list of pointers, one after the other.
use hash_map_storage_service.Prelude.{
  ℕ, ◌≡◌, refl, ◌∙◌, sym, Bool-cases, Bool, true, false, ◌||◌, none, some, List, [], ◌∷◌, arith,
  inl, inr, ◌==◌,
}
use hash_map_storage_service.Prelude.Outcome.{Outcome, ret, fault, ◌>>=◌}
use hash_map_storage_service.Data.{Block}
use hash_map_storage_service.Message.{Ptr, Blocks, write, free_block}
use hash_map_storage_service.Message.Freed.{
  free_block-keeps, free_block-cases, free_block-none, fault_is_not_ret,
}

unfoldable pub free_all : List Ptr → Blocks → Outcome Blocks
free_all [] h = ret h
free_all (p ∷ ps) h = free_block h p >>= λ h'. free_all ps h'

abbrev pub points : ℕ → List Ptr → Bool
points a [] = false
points a (none ∷ ps) = points a ps
points a (some b ∷ ps) = (a == b) || points a ps

-- The pointers are NULL or lead to blocks, each to another one.
abbrev pub Live : Blocks → List Ptr → Type 0
Live h [] = Unit
Live h (none ∷ ps) = Live h ps
Live h (some a ∷ ps) = ((b : Block) × (h a ≡ some b)) × (points a ps ≡ false) × Live h ps

-- The blocks at the pointers are gone, the others stay.
pub record Cleared (h : Blocks) (ps : List Ptr) (g : Blocks) : Type 0 where
  pub gone : (a : ℕ) → points a ps ≡ true → g a ≡ none
  pub kept : (a : ℕ) → points a ps ≡ false → g a ≡ h a

Live-write :
    (h : Blocks) (a : ℕ) (ps : List Ptr)
    → points a ps ≡ false
    → Live h ps
    → Live (write h a none) ps
unfolding write
Live-write h a [] out l = tt
Live-write h a (none ∷ ps) out l = Live-write h a ps out l
Live-write h a (some b ∷ ps) out ((k, e), apart, l) =
    ((k, ground arith), apart, Live-write h a ps (ground arith) l)

pub free_all-Live :
    (ps : List Ptr) (h : Blocks)
    → Live h ps
    → (g : Blocks) × (free_all ps h ≡ ret g) × Cleared h ps g
unfolding free_all free_block
free_all-Live [] h l = (h, refl, record { gone = λ a e. absurd (ground arith); kept = λ a e. refl })
free_all-Live (none ∷ ps) h l =
    let (g, run, c) = free_all-Live ps h l in (g, run, record { gone = c.gone; kept = c.kept })
free_all-Live (some b ∷ ps) h ((k, e), apart, l) =
    let (g, run, c) = free_all-Live ps (write h b none) (Live-write h b ps apart l) in
    (g, rw e run, record { gone = gone g c; kept = kept g c })
  where
    gone :
        (g : Blocks)
        → Cleared (write h b none) ps g
        → (a : ℕ) → points a (some b ∷ ps) ≡ true
        → g a ≡ none
    gone g c a e = at (points a ps) refl
      where
        at : (t : Bool) → points a ps ≡ t → g a ≡ none
        at true e' = c.gone a e'
        at false e' = c.kept a e' ∙ (unfold write in ground arith)

    kept :
        (g : Blocks)
        → Cleared (write h b none) ps g
        → (a : ℕ) → points a (some b ∷ ps) ≡ false
        → g a ≡ h a
    kept g c a e = c.kept a (ground arith) ∙ (unfold write in ground arith)

-- A pointer to a block that is gone is freed a second time.
pub free_all-gone_fault :
    (ps : List Ptr) (h : Blocks) (a : ℕ) → points a ps ≡ true → h a ≡ none → free_all ps h ≡ fault
unfolding free_all free_block
free_all-gone_fault [] h a e gone = absurd (ground arith)
free_all-gone_fault (none ∷ ps) h a e gone = free_all-gone_fault ps h a e gone
free_all-gone_fault (some b ∷ ps) h a e gone = elim (free_block-cases h (some b)) [
  | inl stuck ↦ rw stuck refl
  | inr (g, run) ↦
      let behind : points a ps ≡ true = later g run in
      let kept : g a ≡ none = free_block-keeps h g (some b) a gone run in
      rw run (free_all-gone_fault ps g a behind kept)
]
  where
    later : (g : Blocks) → free_block h (some b) ≡ ret g → points a ps ≡ true
    later g run = elim (Bool-cases (a == b)) [
      | inl same ↦
          let gone' : h b ≡ none = ground (arith, gone, same) in
          absurd (fault_is_not_ret (sym (free_block-none h b gone') ∙ run))
      | inr apart ↦ ground arith
    ]
