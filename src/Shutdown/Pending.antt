-- ===== src/Shutdown/Pending.antt =====
-- The writes that still wait when `fifo_delete` of source/fifo.c runs.
use hash_map_storage_service.Prelude.{
  ℕ, ◌≡◌, refl, ◌∙◌, inl, inr, Bool, true, false, ◌||◌, none, some, List, [], ◌∷◌, ◌++◌, arith,
}
use hash_map_storage_service.Prelude.Int.{pos}
use hash_map_storage_service.Prelude.Outcome.{ret, fault}
use hash_map_storage_service.Table.{TableT}
use hash_map_storage_service.Fifo.{Ptr, Link, Op, del, put, Fifo}
use hash_map_storage_service.Fifo.Chain.{Cell, Cells, IsQueue, TailOk}
use hash_map_storage_service.Message.{Blocks, Message, free_message}
use hash_map_storage_service.Message.Freed.{OwnsBlock, free_message-gone}
use hash_map_storage_service.Skeleton.{Server, is_refused, task_of, invoke}
use hash_map_storage_service.Skeleton.Enqueue.{IsServer, opcode_of, answer_of, invoke-Enqueued}
use hash_map_storage_service.Shutdown.{fifo_delete}
use hash_map_storage_service.Shutdown.Clear.{
  points, Live, Cleared, free_all-Live, free_all-gone_fault,
}
use hash_map_storage_service.Shutdown.Queue.{blocks_of, all_blocks, NoTasks, fifo_delete-free_all}

-- `fifo_delete` of a queue whose tasks lead to live blocks, each to its own, returns: every task is
-- freed with its key, and each put with its data; the other tasks and blocks stay.
pub fifo_delete-Live :
    (h : Blocks) (q : Fifo) (cs : Cells) (stop : Link)
    → IsQueue q cs stop
    → Live h (all_blocks cs)
    → (g : Blocks) × (r : Fifo) × (fifo_delete h q ≡ ret (g, r))
      × Cleared h (all_blocks cs) g
      × NoTasks q cs r
fifo_delete-Live h q cs stop is live =
    let (r, done, run) = fifo_delete-free_all q cs stop is in
    let (g, freed, cleared) = free_all-Live (all_blocks cs) h live in
    (g, r, run h ∙ rw freed refl, cleared, done)

-- The task of a write holds the block a.
abbrev pub Holds : Op → Message → ℕ → Type 0
Holds del m a = m.key ≡ some a
Holds put m a = OwnsBlock m a

Holds-OwnsBlock : (op : Op) (m : Message) (a : ℕ) → Holds op m a → OwnsBlock m a
Holds-OwnsBlock del m a e = inl e
Holds-OwnsBlock put m a e = e

points-append : (a : ℕ) (ps qs : List Ptr) → points a (ps ++ qs) ≡ (points a ps || points a qs)
points-append a [] qs = refl
points-append a (none ∷ ps) qs = points-append a ps qs
points-append a (some b ∷ ps) qs = ground (arith, points-append a ps qs)

or-true : (b : Bool) → (b || true) ≡ true
or-true b = ground arith

points_self : (a : ℕ) → points a (some a ∷ []) ≡ true
points_self a = ground arith

points-last :
    (a : ℕ) (cs : Cells) (c : Cell)
    → points a (blocks_of c.task.op c.task) ≡ true
    → points a (all_blocks (cs ++ c ∷ [])) ≡ true
points-last a [] c e = points-append a (blocks_of c.task.op c.task) [] ∙ rw e refl
points-last a (d ∷ cs) c e =
    points-append a (blocks_of d.task.op d.task) (all_blocks (cs ++ c ∷ []))
    ∙ rw (points-last a cs c e) (or-true (points a (blocks_of d.task.op d.task)))

points-task :
    (a : ℕ) (op : Op) (n : ℕ) (m : Message)
    → Holds op m a
    → points a (blocks_of (task_of op n m).op (task_of op n m)) ≡ true
unfolding task_of
points-task a del n m e = rw e (ground arith)
points-task a put n m (inl e) = rw e (ground arith)
points-task a put n m (inr e) =
    points-append a (m.key ∷ []) (m.bytes ∷ [])
    ∙ rw (e, points_self a) (or-true (points a (m.key ∷ [])))

-- If the answer to a delete or put is freed, as the network thread does when it has sent it, and the
-- queue is deleted before the worker has run the task, then `fifo_delete` frees the key, or the data
-- of the put, a second time.
pub invoke-free_message-fifo_delete_fault :
    (junk stop : Link) (s : Server) (t : TableT) (cs : Cells) (op : Op) (m : Message) (a : ℕ)
    (h : Blocks)
    → IsServer s t cs stop
    → TailOk s.queue.tail cs
    → m.opcode ≡ opcode_of op
    → is_refused m ≡ false
    → Holds op m a
    → free_message s.store.blocks (some (answer_of op s.last_assigned m)) ≡ ret h
    → (s' : Server) × (invoke junk s (some m)
        ≡ ret (pos 0, s', some (answer_of op s.last_assigned m)))
      × (s'.store ≡ s.store)
      × (fifo_delete h s'.queue ≡ fault)
invoke-free_message-fifo_delete_fault junk stop s t cs op m a h is ok opcode accepted holds freed =
    let (s', run, e) = invoke-Enqueued junk stop s t cs op m is ok opcode accepted in
    let (r, _, deleted) = fifo_delete-free_all s'.queue _ junk e.is_server.is_queue in
    let gone =
      free_message-gone s.store.blocks h (answer_of op s.last_assigned m) a
        (Holds-OwnsBlock op m a holds) freed in
    (
      s',
      run,
      e.store,
      deleted h
          ∙ rw
              (free_all-gone_fault _ h a
                (points-last a cs _ (points-task a op s.last_assigned m holds)) gone)
              refl,
    )
