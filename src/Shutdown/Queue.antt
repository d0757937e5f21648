-- ===== src/Shutdown/Queue.antt =====
-- `fifo_delete` of source/fifo.c.
use hash_map_storage_service.Prelude.{
  ℕ, zero, suc, ◌<◌, ◌≡◌, refl, ◌∙◌, sym, ap, Bool, true, false, none, List, [], ◌∷◌, ◌++◌, length,
  arith, ◌==◌,
}
use hash_map_storage_service.Prelude.Outcome.{Outcome, ret, ◌>>=◌, bind_assoc, bind-congr}
use hash_map_storage_service.Fifo.{Ptr, Link, Op, del, put, Task, Fifo, write, free_task}
use hash_map_storage_service.Fifo.Chain.{Cell, Cells, has, IsQueue, Chain-write}
use hash_map_storage_service.Fifo.Pop.{Popped, pop-cons}
use hash_map_storage_service.Message.{Blocks, free_block}
use hash_map_storage_service.Shutdown.{free_data, address, delete_loop, fifo_delete}
use hash_map_storage_service.Shutdown.Clear.{free_all}

-- The blocks that go with a task.
abbrev pub blocks_of : Op → Task → List Ptr
blocks_of del t = t.key ∷ []
blocks_of put t = t.key ∷ t.bytes ∷ []

abbrev pub all_blocks : Cells → List Ptr
all_blocks [] = []
all_blocks (c ∷ cs) = blocks_of c.task.op c.task ++ all_blocks cs

-- The queue r is q without its tasks, which are freed.
pub record NoTasks (q : Fifo) (cs : Cells) (r : Fifo) : Type 0 where
  pub size : r.size ≡ 0
  pub gone : (a : ℕ) → has a cs ≡ true → r.tasks a ≡ none
  pub kept : (a : ℕ) → has a cs ≡ false → r.tasks a ≡ q.tasks a

task_blocks :
    {B : Type 0} (op : Op) (t : Task) (ps : List Ptr) (k : Blocks → Outcome B) (h : Blocks)
    → (free_block h t.key >>= λ h'. free_data h' op t.bytes >>= λ h''. free_all ps h'' >>= k)
      ≡ (free_all (blocks_of op t ++ ps) h >>= k)
unfolding free_all free_data
task_blocks del t ps k h = sym (bind_assoc (free_block h t.key) (free_all ps) k)
task_blocks put t ps k h =
    bind-congr (free_block h t.key) _ _
      (λ h'. sym (bind_assoc (free_block h' t.bytes) (free_all ps) k))
    ∙ sym (bind_assoc (free_block h t.key) _ k)

delete_loop-empty :
    (n : ℕ) (h : Blocks) (q : Fifo) → q.size ≡ 0 → delete_loop (suc n) h q ≡ ret (h, q)
unfolding delete_loop
delete_loop-empty n h q e = ground arith

-- One round.
delete_loop-first :
    (n : ℕ) (h : Blocks) (q q' : Fifo) (c : Cell) (cs : Cells) (stop : Link)
    → Popped q c cs stop q'
    → (q.size == 0) ≡ false
    → delete_loop (suc n) h q ≡ (
        free_block h c.task.key >>= λ h'.
        free_data h' c.task.op c.task.bytes >>= λ h''. delete_loop n h'' (free_task q' c.address))
unfolding delete_loop address
delete_loop-first n h q q' c cs stop p filled =
    rw (delete_loop, filled) (rw p.popped (rw p.holds refl))

delete_loop-free_all :
    (n : ℕ) (q : Fifo) (cs : Cells) (stop : Link)
    → IsQueue q cs stop
    → length cs < n
    → (r : Fifo) × NoTasks q cs r
      × ((h : Blocks) → delete_loop n h q ≡ (free_all (all_blocks cs) h >>= λ g. ret (g, r)))
unfolding free_all
delete_loop-free_all zero q cs stop is lt = absurd (omega arith)
delete_loop-free_all (suc n) q [] stop is lt = (
  q,
  record { size = is.count; gone = λ a e. absurd (ground arith); kept = λ a e. refl },
  λ h. delete_loop-empty n h q is.count,
)
delete_loop-free_all (suc n) q (c ∷ cs) stop is lt =
    let (q', p) = pop-cons q c cs stop is in
    let (r, done, run) =
      delete_loop-free_all n (free_task q' c.address) cs stop (rest q' p) (omega arith) in
    (r, no_tasks q' p r done, λ h. delete_loop-first n h q q' c cs stop p filled ∙ on q' r run h)
  where
    filled : (q.size == 0) ≡ false
    filled = ground (arith, is.count)

    rest : (q' : Fifo) → Popped q c cs stop q' → IsQueue (free_task q' c.address) cs stop
    rest q' p =
        unfold free_task in
        record {
          chain = Chain-write stop q'.tasks c.address none q'.head cs p.is_queue.chain p.apart;
          count = p.is_queue.count;
          below = p.is_queue.below;
        }

    on :
        (q' r : Fifo)
        → ((h : Blocks)
            → delete_loop n h (free_task q' c.address)
              ≡ (free_all (all_blocks cs) h >>= λ g. ret (g, r)))
        → (h : Blocks)
        → (free_block h c.task.key >>= λ h'. free_data h' c.task.op c.task.bytes >>= λ h''.
            delete_loop n h'' (free_task q' c.address))
          ≡ (free_all (all_blocks (c ∷ cs)) h >>= λ g. ret (g, r))
    on q' r run h =
        bind-congr (free_block h c.task.key) _ _
          (λ h'. bind-congr (free_data h' c.task.op c.task.bytes) _ _ run)
        ∙ task_blocks c.task.op c.task (all_blocks cs) (λ g. ret (g, r)) h

    no_tasks :
        (q' : Fifo)
        → Popped q c cs stop q'
        → (r : Fifo) → NoTasks (free_task q' c.address) cs r
        → NoTasks q (c ∷ cs) r
    no_tasks q' p r d = record { size = d.size; gone = gone; kept = kept }
      where
        gone : (a : ℕ) → has a (c ∷ cs) ≡ true → r.tasks a ≡ none
        gone a e = at (has a cs) refl
          where
            at : (t : Bool) → has a cs ≡ t → r.tasks a ≡ none
            at true e' = d.gone a e'
            at false e' = d.kept a e' ∙ (unfold free_task in unfold write in ground arith)

        kept : (a : ℕ) → has a (c ∷ cs) ≡ false → r.tasks a ≡ q.tasks a
        kept a e =
            let same : (free_task q' c.address).tasks a ≡ q'.tasks a =
              unfold free_task in unfold write in ground arith in
            d.kept a (ground arith) ∙ same ∙ ap (λ h. h a) p.tasks

-- `fifo_delete` of a queue returns exactly if the keys of its tasks and the data of its puts can be
-- freed one after the other, and then no task is left: its tasks are freed, and no other.
pub fifo_delete-free_all :
    (q : Fifo) (cs : Cells) (stop : Link)
    → IsQueue q cs stop
    → (r : Fifo) × NoTasks q cs r
      × ((h : Blocks) → fifo_delete h q ≡ (free_all (all_blocks cs) h >>= λ g. ret (g, r)))
unfolding fifo_delete
fifo_delete-free_all q cs stop is =
    delete_loop-free_all (suc q.size) q cs stop is (omega (arith, is.count))
