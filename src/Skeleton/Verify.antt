-- ===== src/Skeleton/Verify.antt =====
-- `verify` of source/table_skel.c.
use hash_map_storage_service.Prelude.{
  ℕ, suc, ◌<◌, ◌≡◌, refl, ◌∙◌, true, false, ◌||◌, inl, inr, none, some, [], ◌∷◌, length, arith,
  if◌then◌else◌, Bool-cases,
}
use hash_map_storage_service.Prelude.Int.{ℤ, pos, negsuc, minus_one, eqb_ℤ, leb_ℤ, ltb_ℤ}
use hash_map_storage_service.Prelude.Outcome.{Outcome, ret, fault}
use hash_map_storage_service.Fifo.{Link, Tasks, Fifo}
use hash_map_storage_service.Fifo.Chain.{Cells, Chain, IsQueue}
use hash_map_storage_service.Skeleton.{verify_loop, verify}
use hash_map_storage_service.Skeleton.Numbers.{Numbers, Numbers-length, is_between}

-- The answer at the end of the queue, which is NULL or was never set.
unfoldable pub at_end : Link → ℤ → ℕ → Outcome ℤ
at_end none n done = fault
at_end (some none) n done = ret (if leb_ℤ (pos done) n || ltb_ℤ n (pos 0) then minus_one else pos 0)
at_end (some (some a)) n done = fault

-- The answer for a number, given the numbers that wait.
abbrev pub verdict : Link → ℕ → ℕ → ℤ → ℕ → Outcome ℤ
verdict stop first next n done =
    if is_between first next n then ret minus_one else at_end stop n done

-- The queue ends in NULL or in an indeterminate link.
abbrev pub IsEnd : Link → Type 0
IsEnd none = Unit
IsEnd (some none) = Unit
IsEnd (some (some a)) = ⊥

between-here :
    (first next : ℕ) (n : ℤ)
    → first < next
    → eqb_ℤ (pos first) n ≡ true
    → is_between first next n ≡ true
between-here first next (pos n) lt e = ground arith
between-here first next (negsuc n) lt e = ground arith

between-rest :
    (first next : ℕ) (n : ℤ)
    → eqb_ℤ (pos first) n ≡ false
    → is_between (suc first) next n ≡ is_between first next n
between-rest first next (pos n) ne = ground arith
between-rest first next (negsuc n) ne = refl

between-none : (first : ℕ) (n : ℤ) → is_between first first n ≡ false
between-none first (pos n) = ground arith
between-none first (negsuc n) = refl

verify_loop-verdict :
    (stop : Link) (h : Tasks) (p : Link) (cs : Cells) (first next : ℕ) (n : ℤ) (done : ℕ)
    → IsEnd stop
    → Chain stop h p cs
    → Numbers first next cs
    → verify_loop (suc (length cs)) h p n done ≡ verdict stop first next n done
unfolding verify_loop at_end
verify_loop-verdict none h p [] first next n done s c e = rw (c, ← e, between-none first n) refl
verify_loop-verdict (some none) h p [] first next n done s c e =
    rw (c, ← e, between-none first n) refl
verify_loop-verdict (some (some a)) h p [] first next n done s c e = absurd s
verify_loop-verdict stop h p (x ∷ cs) first next n done s (c, (q, holds, out, rest)) (e, ns) =
    let lt : first < next = omega (arith, Numbers-length (suc first) next cs ns) in
    rw (c, holds, e)
      (elim (Bool-cases (eqb_ℤ (pos first) n)) [
        | inl same ↦ rw (same, between-here first next n lt same) refl
        | inr other ↦
            rw
              (
                other,
                verify_loop-verdict stop h q cs (suc first) next n done s rest ns,
                between-rest first next n other,
              )
              refl
      ])

module _ (q : Fifo) (cs : Cells) (op_count next : ℕ) (ns : Numbers op_count next cs) (n : ℤ) where
  verify-verdict :
      (stop : Link)
      → IsEnd stop
      → IsQueue q cs stop
      → verify q op_count n ≡ verdict stop op_count next n op_count
  unfolding verify
  verify-verdict stop s is =
      rw is.count
        (verify_loop-verdict stop q.tasks q.head cs op_count next n op_count s is.chain ns)

  -- In a queue that ends in NULL, whose tasks have the numbers from op_count on, `verify` answers 0
  -- for the numbers from 0 up to op_count, whose tasks are done, and -1 for all others.
  pub verify-done :
      IsQueue q cs (some none)
      → verify q op_count n ≡ ret (if is_between 0 op_count n then pos 0 else minus_one)
  verify-done is = verify-verdict (some none) tt is ∙ answer op_count next n
    where
      answer :
          (d next : ℕ) (n : ℤ)
          → verdict (some none) d next n d ≡ ret (if is_between 0 d n then pos 0 else minus_one)
      answer d next (pos n) = unfold at_end in ground arith
      answer d next (negsuc n) = unfold at_end in ground arith

  -- In such a queue whose last link was never set, `verify` answers -1 for a number that waits, and
  -- reads the link that was never set for all others.
  pub verify-unset :
      IsQueue q cs none
      → verify q op_count n ≡ (if is_between op_count next n then ret minus_one else fault)
  unfolding at_end
  verify-unset is = verify-verdict none tt is
