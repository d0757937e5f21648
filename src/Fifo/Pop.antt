-- ===== src/Fifo/Pop.antt =====
-- `pop` of source/fifo.c.
use hash_map_storage_service.Prelude.{
  ◌-◌, ◌≡◌, ◌≢◌, refl, ◌⊎◌, inl, inr, false, none, some, [], ◌∷◌, arith, ◌==◌,
}
use hash_map_storage_service.Prelude.Outcome.{ret}
use hash_map_storage_service.Fifo.{Ptr, Link, Fifo, load, pop}
use hash_map_storage_service.Fifo.Chain.{Cell, Cells, has, at_link, IsQueue, TailOk}

-- The queue r after the first task was taken out; the task itself stays allocated.
pub record Popped (q : Fifo) (c : Cell) (cs : Cells) (stop : Link) (r : Fifo) : Type 0 where
  pub popped : pop q ≡ ret (some (some c.address), r)
  pub is_queue : IsQueue r cs stop
  pub tail : r.tail ≡ q.tail
  pub fresh : r.fresh ≡ q.fresh
  pub tasks : r.tasks ≡ q.tasks
  pub link : Link
  pub holds : r.tasks c.address ≡ some (at_link c.task link)
  pub apart : has c.address cs ≡ false
  pub tail_ok : (cs ≢ []) ⊎ (q.tail ≡ none) → TailOk q.tail (c ∷ cs) → TailOk r.tail cs

tail-rest :
    (t : Ptr) (c : Cell) (cs : Cells) → (cs ≢ []) ⊎ (t ≡ none) → TailOk t (c ∷ cs) → TailOk t cs
tail-rest t c [] (inl ne) ok = absurd (ne refl)
tail-rest t c [] (inr e) ok = inl e
tail-rest t c (d ∷ cs) h (inl e) = inl e
tail-rest t c (d ∷ cs) h (inr (short, e)) = absurd (omega arith)

-- `pop` of a queue that is not empty returns its first task and leaves the others in order. The
-- tail stays sound if tasks are left, or if it was NULL.
pub pop-cons :
    (q : Fifo) (c : Cell) (cs : Cells) (stop : Link)
    → IsQueue q (c ∷ cs) stop
    → (r : Fifo) × Popped q c cs stop r
unfolding pop load
pop-cons q c cs stop is =
    let (e, (p, holds, out, rest)) = is.chain in
    let filled : (q.size == 0) ≡ false = ground (arith, is.count) in
    (
      record q { head = p; size = q.size - 1 },
      record {
        popped = rw filled (rw e (rw holds refl));
        is_queue = record { chain = rest; count = omega (arith, is.count); below = is.below.1 };
        tail = refl;
        fresh = refl;
        tasks = refl;
        link = p;
        holds = holds;
        apart = out;
        tail_ok = tail-rest q.tail c cs;
      },
    )
