-- ===== src/Skeleton/Worker.antt =====
-- `process_task` of source/table_skel.c.
use hash_map_storage_service.Prelude.{
  ℕ, suc, ◌+◌, ◌≡◌, ◌≢◌, refl, ◌∙◌, ap, inl, inr, ◌⊎◌, false, Option, none, [], ◌∷◌, arith, ◌==◌,
}
use hash_map_storage_service.Prelude.Int.{ℤ}
use hash_map_storage_service.Prelude.Outcome.{ret, ◌>>=◌}
use hash_map_storage_service.Table.{TableT}
use hash_map_storage_service.Fifo.{Link, Op, del, put, Task, Fifo, free_task}
use hash_map_storage_service.Fifo.Chain.{Cell, Cells, Chain-write, IsQueue, TailOk, at_link}
use hash_map_storage_service.Fifo.Pop.{Popped, pop-cons}
use hash_map_storage_service.Message.{Blocks}
use hash_map_storage_service.Skeleton.{
  Server, task_value, put_value, run_task, finish, take_task, process_task,
}
use hash_map_storage_service.Skeleton.Numbers.{Numbers}
use hash_map_storage_service.Skeleton.Enqueue.{IsServer}

Op-cases : (op : Op) → (op ≡ del) ⊎ (op ≡ put)
Op-cases del = inl refl
Op-cases put = inr refl

-- No operation reads the link of its task.
run_task-link :
    (h : Blocks) (table : Option TableT) (t : Task) (p : Link)
    → run_task h table t.op (at_link t p) ≡ run_task h table t.op t
unfolding run_task task_value put_value
run_task-link h table t p = elim (Op-cases t.op) [ inl e ↦ rw e refl | inr e ↦ rw e refl ]

module _ (s : Server) (t : TableT) (c : Cell) (cs : Cells) (stop : Link)
    (is : IsServer s t (c ∷ cs) stop) where
  -- The server after the round for the task c.
  pub record Processed (s' : Server) : Type 0 where
    pub is_queue : IsQueue s'.queue cs stop
    pub numbers : Numbers s'.op_count s'.last_assigned cs
    pub store : s'.store ≡ s.store
    pub op_count : s'.op_count ≡ s.op_count + 1
    pub tail_ok :
        (cs ≢ []) ⊎ (s.queue.tail ≡ none) → TailOk s.queue.tail (c ∷ cs) → TailOk s'.queue.tail cs

  -- The server that the operation of a task leaves.
  unfoldable pub after : Fifo → ℤ × Option TableT → Server
  after q r = record s { table = r.1; queue = free_task q c.address; op_count = s.op_count + 1 }

  pub process_task-Popped :
      (q : Fifo) × Popped s.queue c cs stop q
      × (process_task s
          ≡ (run_task s.store.blocks s.table c.task.op c.task >>= λ r. ret (after q r)))
  unfolding process_task take_task finish free_task after
  process_task-Popped =
      let (q, p) = pop-cons s.queue c cs stop is.is_queue in
      let filled : (s.queue.size == 0) ≡ false = ground (arith, is.is_queue.count) in
      (
        q,
        p,
        rw filled (
            ap (take_task s) is.is_queue.chain.0
            ∙ rw p.popped
                (rw p.holds (rw (run_task-link s.store.blocks s.table c.task p.link) refl))),
      )

  -- A round of a server with waiting tasks runs the operation of the first one on the table, and
  -- faults exactly if that does. The other tasks keep waiting under their numbers, op_count goes
  -- up by one to the number of the next task, and the tail stays sound if tasks are left or it was
  -- NULL.
  pub process_task-first :
      (q : Fifo) × (process_task s
        ≡ (run_task s.store.blocks s.table c.task.op c.task >>= λ r. ret (after q r)))
      × ((r : ℤ × Option TableT) → Processed (after q r))
  unfolding free_task after
  process_task-first =
      let (q, p, run) = process_task-Popped in
      (
        q,
        run,
        λ r. record {
          is_queue = record {
            chain = Chain-write stop q.tasks c.address none q.head cs p.is_queue.chain p.apart;
            count = p.is_queue.count;
            below = p.is_queue.below;
          };
          numbers = rw (plus s.op_count) is.numbers.1;
          store = refl;
          op_count = refl;
          tail_ok = p.tail_ok;
        },
      )
    where
      plus : (n : ℕ) → n + 1 ≡ suc n
      plus n = omega arith
