-- ===== src/Skeleton/Numbers.antt =====
-- The numbers of the tasks that wait in the queue of source/table_skel.c.
use hash_map_storage_service.Prelude.{
  ℕ, suc, ◌+◌, ◌≡◌, Bool, false, ◌&&◌, [], ◌∷◌, ◌++◌, length, leb, ltb, arith,
}
use hash_map_storage_service.Prelude.Int.{ℤ, pos, negsuc}
use hash_map_storage_service.Fifo.Chain.{Cell, Cells}

-- The tasks have the numbers from `first` up to, but not including, `next`, in order.
abbrev pub Numbers : ℕ → ℕ → Cells → Type 0
Numbers first next [] = first ≡ next
Numbers first next (c ∷ cs) = (c.task.op_n ≡ first) × Numbers (suc first) next cs

pub Numbers-snoc :
    (first next : ℕ) (cs : Cells) (c : Cell)
    → Numbers first next cs
    → c.task.op_n ≡ next
    → Numbers first (next + 1) (cs ++ c ∷ [])
Numbers-snoc first next [] c n e = (omega (arith, n, e), omega (arith, n))
Numbers-snoc first next (x ∷ cs) c (e', n) e = (e', Numbers-snoc (suc first) next cs c n e)

pub Numbers-length :
    (first next : ℕ) (cs : Cells) → Numbers first next cs → first + length cs ≡ next
Numbers-length first next [] n = omega (arith, n)
Numbers-length first next (x ∷ cs) (e, n) = omega (arith, Numbers-length (suc first) next cs n)

-- The number n is at least first and less than next.
abbrev pub is_between : ℕ → ℕ → ℤ → Bool
is_between first next (pos n) = leb first n && ltb n next
is_between first next (negsuc n) = false
