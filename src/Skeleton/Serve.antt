-- ===== src/Skeleton/Serve.antt =====
-- A write of source/table_skel.c from its message to the table.
use hash_map_storage_service.Prelude.{
  ℕ, ◌+◌, ◌<◌, ◌≡◌, inl, inr, refl, ◌∙◌, ap, false, Option, none, some, [], arith,
}
use hash_map_storage_service.Prelude.Int.{ℤ, pos, leb_ℤ}
use hash_map_storage_service.Prelude.Outcome.{Outcome, ret, fault, ◌>>=◌, deref}
use hash_map_storage_service.Prelude.Text.{Text}
use hash_map_storage_service.Data.{Block, data_create2, data_of}
use hash_map_storage_service.Table.{TableT, table_put, table_del}
use hash_map_storage_service.Fifo.{Link, Op, del, put, Task}
use hash_map_storage_service.Fifo.Chain.{IsQueue}
use hash_map_storage_service.Message.{Blocks, Message, Ptr, read_text, free_message}
use hash_map_storage_service.Message.Freed.{OwnsBlock, fault_is_not_ret, free_message-gone}
use hash_map_storage_service.Skeleton.{
  Server, is_refused, task_of, task_value, put_value, run_task, invoke, process_task,
}
use hash_map_storage_service.Skeleton.Enqueue.{IsServer, opcode_of, answer_of, invoke-Enqueued}
use hash_map_storage_service.Skeleton.Worker.{process_task-first, after}

-- The message has the key k, and for a put the n bytes of b, at least one.
abbrev pub Carries : Op → Blocks → Message → Text → ℕ → Block → Type 0
Carries del h m k n b = read_text h m.key ≡ ret (some k)
Carries put h m k n b =
    (read_text h m.key ≡ ret (some k))
    × ((deref m.bytes >>= λ a. deref (h a)) ≡ ret b)
    × (m.data_size ≡ pos n)
    × (0 < n)

-- The call on the table that a write stands for.
abbrev pub table_call : Op → TableT → Text → ℕ → Block → Outcome (ℤ × Option TableT)
table_call del t k n b = table_del (some t) (some k)
table_call put t k n b = table_put (some t) (some k) (some (data_of (pos n) (some b)))

-- The task of a write needs a block of its message.
abbrev pub Needs : Op → Message → ℕ → Type 0
Needs del m a = m.key ≡ some a
Needs put m a = (m.bytes ≡ some a) × (leb_ℤ m.data_size (pos 0) ≡ false)

task_value_lem :
    (h : Blocks) (p : Ptr) (n : ℕ) (b : Block) (t : Task)
    → t.bytes ≡ p
    → t.datasize ≡ pos n
    → (deref p >>= λ a. deref (h a)) ≡ ret b
    → 0 < n
    → task_value h t ≡ ret (some (data_of (pos n) (some b)))
unfolding task_value data_create2
task_value_lem h none n b t e d holds lt = absurd (fault_is_not_ret holds)
task_value_lem h (some a) n b t e d holds lt =
    let positive : leb_ℤ (pos n) (pos 0) ≡ false = ground arith in
    rw (d, e, positive) (rw holds (rw (d, positive) refl))

run_task-call :
    (h : Blocks) (op : Op) (i : ℕ) (t : TableT) (m : Message) (k : Text) (n : ℕ) (b : Block)
    → Carries op h m k n b
    → run_task h (some t) op (task_of op i m) ≡ table_call op t k n b
unfolding run_task put_value task_of
run_task-call h del i t m k n b c = rw c refl
run_task-call h put i t m k n b (key, bytes, size, lt) =
    rw (task_value_lem h m.bytes n b (task_of put i m) refl size bytes lt) (rw key refl)

run_task-freed :
    (h : Blocks) (op : Op) (i : ℕ) (t : TableT) (m : Message) (a : ℕ)
    → Needs op m a
    → h a ≡ none
    → run_task h (some t) op (task_of op i m) ≡ fault
unfolding run_task task_of read_text task_value
run_task-freed h del i t m a e gone = rw e (rw gone refl)
run_task-freed h put i t m a (e, positive) gone = rw (positive, e) (rw gone refl)

-- The block that the task needs is one that its message owns.
Needs-OwnsBlock : (op : Op) (m : Message) (a : ℕ) → Needs op m a → OwnsBlock m a
Needs-OwnsBlock del m a e = inl e
Needs-OwnsBlock put m a (e, _) = inr e

module _ (junk stop : Link) (s : Server) (t : TableT) (op : Op) (m : Message)
    (is : IsServer s t [] stop) (no_tail : s.queue.tail ≡ none) (opcode : m.opcode ≡ opcode_of op)
    (accepted : is_refused m ≡ false) where
  -- After `invoke` put off a write, the round of the worker for its task.
  round :
      (s' : Server) × (invoke junk s (some m)
        ≡ ret (pos 0, s', some (answer_of op s.last_assigned m)))
      × (s'.store ≡ s.store)
      × ((h : Blocks)
          → (f : ℤ × Option TableT → Server) × (process_task
                (record s' { store = record s'.store { blocks = h } })
              ≡ (run_task h (some t) op (task_of op s.last_assigned m) >>= λ r. ret (f r)))
            × ((r : ℤ × Option TableT)
                → ((f r).table ≡ r.1)
                  × ((f r).op_count ≡ s.op_count + 1)
                  × IsQueue (f r).queue [] junk))
  unfolding after
  round =
      let (s', run, e) = invoke-Enqueued junk stop s t [] op m is (inl no_tail) opcode accepted in
      (
        s',
        run,
        e.store,
        λ h.
            let is' : IsServer (record s' { store = record s'.store { blocks = h } }) t _ junk =
              record {
                table = e.is_server.table;
                is_queue = e.is_server.is_queue;
                numbers = e.is_server.numbers;
              } in
            let (q, step, p) = process_task-first _ t _ [] junk is' in
            (
              after _ t _ [] junk is' q,
              step ∙ run_at h e.is_server.table (op_of op) _,
              λ r. (refl, rw e.op_count refl, (p r).is_queue),
            ),
      )
    where
      op_of : (op : Op) → (task_of op s.last_assigned m).op ≡ op
      op_of del = unfold task_of in refl
      op_of put = unfold task_of in refl

      run_at :
          {x : Option TableT} {o : Op} (h : Blocks)
          → x ≡ some t
          → o ≡ op
          → (f : ℤ × Option TableT → Server)
          → (run_task h x o (task_of op s.last_assigned m) >>= λ r. ret (f r))
            ≡ (run_task h (some t) op (task_of op s.last_assigned m) >>= λ r. ret (f r))
      run_at h e e' f = rw (e, e') refl

  -- A delete or put on a server without waiting tasks whose queue has no tail: `invoke` answers
  -- with the number of the task, and if the call on the table that the message stands for returns,
  -- a round of the worker leaves the table of that call, with one more operation done and no task.
  pub invoke-process_task :
      (k : Text) (n : ℕ) (b : Block) (r : ℤ × Option TableT)
      → Carries op s.store.blocks m k n b
      → table_call op t k n b ≡ ret r
      → (s' : Server) × (s'' : Server) × (invoke junk s (some m)
          ≡ ret (pos 0, s', some (answer_of op s.last_assigned m)))
        × (process_task s' ≡ ret s'')
        × (s''.table ≡ r.1)
        × (s''.op_count ≡ s.op_count + 1)
        × IsQueue s''.queue [] junk
  invoke-process_task k n b r carries call =
      let (s', run, same, next) = round in
      let (f, step, done) = next s'.store.blocks in
      let (table, count, queue) = done r in
      let worked : run_task s'.store.blocks (some t) op (task_of op s.last_assigned m) ≡ ret r =
        ap (λ x. run_task x.blocks (some t) op (task_of op s.last_assigned m)) same
        ∙ run_task-call s.store.blocks op s.last_assigned t m k n b carries
        ∙ call in
      (s', f r, run, step ∙ rw worked refl, table, count, queue)

  -- If the message of such a delete or put is freed before that round, as the network thread does when it has sent the answer, the
  -- round reads a freed block: the task does not own its key and data. `invoke` keeps the store.
  pub invoke-free_message-process_task :
      (a : ℕ) (h : Blocks)
      → Needs op m a
      → free_message s.store.blocks (some (answer_of op s.last_assigned m)) ≡ ret h
      → (s' : Server) × (invoke junk s (some m)
          ≡ ret (pos 0, s', some (answer_of op s.last_assigned m)))
        × (s'.store ≡ s.store)
        × (process_task (record s' { store = record s'.store { blocks = h } }) ≡ fault)
  unfolding free_message
  invoke-free_message-process_task a h needs gone =
      let (s', run, same, next) = round in
      let (f, step, _) = next h in
      (
        s',
        run,
        same,
        step
            ∙ rw
                (run_task-freed h op s.last_assigned t m a needs
                  (free_message-gone s.store.blocks h m a (Needs-OwnsBlock op m a needs) gone))
                refl,
      )
