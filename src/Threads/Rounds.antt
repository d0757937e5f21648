-- ===== src/Threads/Rounds.antt =====
-- The rounds of `process_task` of source/table_skel.c in every order of the steps of the threads.
use hash_map_storage_service.Prelude.{
  ℕ, ◌+◌, ◌<◌, ◌≡◌, refl, ◌∙◌, ap, Option, List, [], ◌∷◌, ◌++◌, length, arith,
}
use hash_map_storage_service.Prelude.Int.{ℤ}
use hash_map_storage_service.Prelude.Outcome.{ret, ◌>>=◌}
use hash_map_storage_service.Table.{TableT}
use hash_map_storage_service.Fifo.{del, put, Task, Link}
use hash_map_storage_service.Fifo.Chain.{Cell, Cells}
use hash_map_storage_service.Skeleton.{Server, run_task, process_task}
use hash_map_storage_service.Skeleton.Enqueue.{IsServer}
use hash_map_storage_service.Skeleton.Worker.{process_task-first, after}
use hash_map_storage_service.Threads.{Write, Reach}
use hash_map_storage_service.Threads.Reached.{Reach-Inv}
use hash_map_storage_service.Threads.Split.{IsFor, Wait}
use hash_map_storage_service.Threads.Writes.{started_with, start-Inv}

-- The round at s runs the operation of the write w, and leaves the table of that.
pub record Runs (s : Server) (w : Write) : Type 0 where
  pub task : Task
  pub carries : IsFor w task
  pub left : ℤ × Option TableT → Server
  pub run : process_task s ≡ (run_task s.store.blocks s.table w.0 task >>= λ r. ret (left r))
  pub table : (r : ℤ × Option TableT) → (left r).table ≡ r.1
  pub counted : (r : ℤ × Option TableT) → (left r).op_count ≡ s.op_count + 1

same_op : (w : Write) (t : Task) → IsFor w t → t.op ≡ w.0
same_op (del, m) t h = h.0
same_op (put, m) t h = h.0

round-Runs :
    (s : Server) (t : TableT) (c : Cell) (cs : Cells) (stop : Link) (w : Write)
    → IsServer s t (c ∷ cs) stop
    → IsFor w c.task
    → Runs s w
unfolding after
round-Runs s t c cs stop w is h =
    let (q, run, processed) = process_task-first s t c cs stop is in
    record {
      task = c.task;
      carries = h;
      left = after s t c cs stop is q;
      run =
          run
          ∙ ap
              (λ op.
                run_task s.store.blocks s.table op c.task >>= λ r. ret (after s t c cs stop is q r))
              (same_op w c.task h);
      table = λ r. refl;
      counted = λ r. refl;
    }

-- In every state that steps of the threads reach from a start with at least one list, without a fault
-- and in any order, and in which a task waits, the round runs, of the deletes and puts that were
-- accepted so far, the one behind the first op_count: the operation of that write on the table, with a
-- task that has its key and, for a put, its value and size. The round faults exactly if that does, and
-- otherwise leaves the table of it and counts one operation more.
pub Reach-Runs :
    {s : Server} {ws : List Write} (n : ℕ) (s₀ : Server)
    → 0 < n
    → Reach (started_with n s₀) ws s
    → 0 < s.queue.size
    → (done : List Write) × (w : Write) × (rest : List Write) × (ws ≡ done ++ (w ∷ rest))
      × (length done ≡ s.op_count)
      × Runs s w
Reach-Runs {s} {ws} n s₀ lt r filled =
    let i = Reach-Inv (start-Inv n s₀ lt) r in
    first i.split.done i.cells i.is_server i.split.waiting i.split.whole i.split.wait i.split.count
  where
    first :
        {t : TableT} {stop : Link} (done : List Write) (cs : Cells)
        → IsServer s t cs stop
        → (vs : List Write) → ws ≡ done ++ vs
        → Wait vs cs
        → length done ≡ s.op_count
        → (past : List Write) × (w : Write) × (rest : List Write) × (ws ≡ past ++ (w ∷ rest))
          × (length past ≡ s.op_count)
          × Runs s w
    first done [] is vs whole h count = absurd (omega (arith, is.is_queue.count, filled))
    first done (c ∷ cs) is [] whole h count = absurd h
    first {t} {stop} done (c ∷ cs) is (v ∷ vs) whole h count =
        (done, v, vs, whole, count, round-Runs s t c cs stop v is h.0)
