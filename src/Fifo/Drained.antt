-- ===== src/Fifo/Drained.antt =====
-- A queue whose last task was its tail keeps the task's address after the worker freed it.
use hash_map_storage_service.Prelude.{
  ℕ, ◌<◌, ◌≡◌, refl, ◌∙◌, some, none, [], ◌∷◌, false, arith, ◌==◌,
}
use hash_map_storage_service.Prelude.Outcome.{fault, ◌>>=◌}
use hash_map_storage_service.Fifo.{
  Link, Task, Tasks, Fifo, write, set_proximo, new_task, link_task, fifo_add, pop, free_task,
}
use hash_map_storage_service.Fifo.Chain.{Cell, IsQueue}
use hash_map_storage_service.Fifo.Add.{Added, fifo_add-first}
use hash_map_storage_service.Fifo.Pop.{pop-cons}

-- With a freed tail a queue that is not empty cannot take a task.
pub fifo_add-freed :
    (task : Task) (junk : Link) (q : Fifo) (t : ℕ)
    → (q.size == 0) ≡ false
    → q.tail ≡ some t
    → q.tasks t ≡ none
    → t < q.fresh
    → fifo_add (new_task junk task q) q.fresh ≡ fault
unfolding fifo_add link_task new_task set_proximo write
fifo_add-freed task junk q t filled tail gone lt =
    let other : write q.tasks q.fresh (some (record task { proximo = junk })) t ≡ none =
      ground arith in
    rw (filled, tail) (rw other refl)

-- When the only task of a queue is its tail, taking it out and freeing it, as the worker does, and
-- adding two more tasks writes to the freed task.
pub pop-fifo_add-twice_fault :
    (q : Fifo) (c : Cell) (stop : Link) (t t' : Task) (junk junk' : Link)
    → IsQueue q (c ∷ []) stop
    → q.tail ≡ some c.address
    → (pop q >>= λ r.
        fifo_add (new_task junk t (free_task r.1 c.address)) (free_task r.1 c.address).fresh
        >>= λ r'. fifo_add (new_task junk' t' r'.1) (r'.1).fresh)
      ≡ fault
unfolding free_task
pop-fifo_add-twice_fault q c stop t t' junk junk' is tail =
    let (r, p) = pop-cons q c [] stop is in
    let freed : IsQueue (free_task r c.address) [] stop = record {
      chain = p.is_queue.chain;
      count = p.is_queue.count;
      below = tt;
    } in
    let (r', a, kept, same, fresh) = fifo_add-first stop t junk (free_task r c.address) freed in
    let young : c.address < r.fresh = omega (arith, p.fresh, is.below.0) in
    rw p.popped (
      rw a.added (
        fifo_add-freed t' junk' r' c.address (filled r' a) (kept ∙ p.tail ∙ tail)
          (same c.address young ∙ empty r.tasks) (omega (arith, young, fresh))))
  where
    empty : (h : Tasks) → write h c.address none c.address ≡ none
    empty h = unfold write in ground arith

    filled : {q' : Fifo} (r' : Fifo) → Added q' [] t junk r' → (r'.size == 0) ≡ false
    filled r' a = ground (arith, a.is_queue.count)
