-- ===== src/Threads/Reached.antt =====
-- What holds of the server of source/table_skel.c in every order of the steps of its threads.
use hash_map_storage_service.Prelude.{
  ℕ, suc, ◌+◌, ◌≡◌, refl, ◌∙◌, sym, ◌⊎◌, true, Option, none, some, [], ◌∷◌, ◌++◌, arith, ◌==◌, List,
  false,
}
use mathlib.Core.Path.{subst}
use hash_map_storage_service.Prelude.Int.{ℤ}
use hash_map_storage_service.Prelude.Outcome.{ret, IfReturns, IfReturns-ret, IfReturns-bind}
use hash_map_storage_service.Table.{TableT}
use hash_map_storage_service.Table.Sound.{IsSound, LeavesSound}
use hash_map_storage_service.Fifo.{Link, Op, del, put, Fifo, free_task}
use hash_map_storage_service.Fifo.Chain.{Cell, Cells, Chain-write, TailOk}
use hash_map_storage_service.Fifo.Add.{cell}
use hash_map_storage_service.Fifo.Pop.{Popped}
use hash_map_storage_service.Fifo.Waiting.{IsStale, fifo_add-Added, pop-tail}
use hash_map_storage_service.Message.{Message}
use hash_map_storage_service.Skeleton.{
  Server, is_refused, task_of, enqueue, run_task, invoke, process_task,
}
use hash_map_storage_service.Skeleton.Numbers.{Numbers-snoc}
use hash_map_storage_service.Skeleton.Enqueue.{IsServer, opcode_of, invoke-enqueue}
use hash_map_storage_service.Skeleton.Worker.{process_task-Popped, after}
use hash_map_storage_service.Skeleton.Steps.{PutOff, enqueue-PutOff, run_task-IsSound}
use hash_map_storage_service.Threads.{Write, Step, round, memory, Reach, here, accept, next}
use hash_map_storage_service.Threads.Split.{Split, task_of-IsFor, Split-snoc, Split-next}

-- The tasks that wait are numbered without a gap and carry the writes that are not done, their tail is
-- sound or was freed, and the table is sound.
pub record Inv (ws : List Write) (s : Server) : Type 0 where
  pub cells : Cells
  pub stop : Link
  pub table : TableT
  pub is_server : IsServer s table cells stop
  pub sound : IsSound table
  pub tail : TailOk s.queue.tail cells ⊎ IsStale s.queue cells
  pub split : Split s.op_count cells ws

PutOff-Inv :
    {ws : List Write} {s s' : Server} (op : Op) (junk : Link) (m : Message)
    → PutOff op junk m s s'
    → Inv ws s
    → Inv (ws ++ ((op, m) ∷ [])) s'
PutOff-Inv {ws} {s} {s'} op junk m e i =
    let task = task_of op s.last_assigned m in
    let (is_queue, tail) =
      fifo_add-Added i.stop junk task s.queue s'.queue i.cells i.is_server.is_queue i.tail
        e.added in
    record {
      cells = i.cells ++ (cell s.queue.fresh task ∷ []);
      stop = junk;
      table = i.table;
      is_server = record {
        table = e.table ∙ i.is_server.table;
        is_queue = is_queue;
        numbers =
            rw (e.last_assigned, e.op_count)
              (Numbers-snoc s.op_count s.last_assigned i.cells (cell s.queue.fresh task)
                i.is_server.numbers (number op));
      };
      sound = i.sound;
      tail = tail;
      split =
          subst (λ n. Split n (i.cells ++ (cell s.queue.fresh task ∷ [])) (ws ++ ((op, m) ∷ [])))
            (sym e.op_count)
            (Split-snoc (op, m) (cell s.queue.fresh task) i.split
              (task_of-IsFor op s.last_assigned m));
    }
  where
    number : (op : Op) → (task_of op s.last_assigned m).op_n ≡ s.last_assigned
    number del = unfold task_of in refl
    number put = unfold task_of in refl

after-Inv :
    {ws : List Write} (s : Server) (t : TableT) (c : Cell) (cs : Cells) (stop : Link)
    (is : IsServer s t (c ∷ cs) stop) (q : Fifo)
    → Popped s.queue c cs stop q
    → TailOk s.queue.tail (c ∷ cs) ⊎ IsStale s.queue (c ∷ cs)
    → Split s.op_count (c ∷ cs) ws
    → (r : ℤ × Option TableT) → LeavesSound r
    → Inv ws (after s t c cs stop is q r)
unfolding after free_task
after-Inv s t c cs stop is q p tail split r h =
    let (t', e, sound) = h in
    record {
      cells = cs;
      stop = stop;
      table = t';
      is_server = record {
        table = e;
        is_queue = record {
          chain = Chain-write stop q.tasks c.address none q.head cs p.is_queue.chain p.apart;
          count = p.is_queue.count;
          below = p.is_queue.below;
        };
        numbers = rw (plus s.op_count) is.numbers.1;
      };
      sound = sound;
      tail = pop-tail stop s.queue q c cs is.is_queue p tail;
      split = Split-next split;
    }
  where
    plus : (n : ℕ) → n + 1 ≡ suc n
    plus n = omega arith

round-Inv :
    {ws : List Write} (s : Server) (t : TableT) (cs : Cells) (stop : Link)
    → IsServer s t cs stop
    → IsSound t
    → TailOk s.queue.tail cs ⊎ IsStale s.queue cs
    → Split s.op_count cs ws
    → IfReturns (process_task s) (Inv ws)
unfolding process_task
round-Inv {ws} s t [] stop is sound tail split =
    let empty : (s.queue.size == 0) ≡ true = ground (arith, is.is_queue.count) in
    let i : Inv ws s = record {
      cells = [];
      stop = stop;
      table = t;
      is_server = is;
      sound = sound;
      tail = tail;
      split = split;
    } in
    rw empty i
round-Inv {ws} s t (c ∷ cs) stop is sound tail split =
    let (q, p, run) = process_task-Popped s t c cs stop is in
    subst (λ o. IfReturns o (Inv ws)) (sym run)
      (IfReturns-bind LeavesSound (Inv ws) (run_task s.store.blocks s.table c.task.op c.task)
        (λ r. ret (after s t c cs stop is q r))
        (subst (λ x. IfReturns (run_task s.store.blocks x c.task.op c.task) LeavesSound)
          (sym is.table) (run_task-IsSound s.store.blocks t sound c.task.op c.task))
        (after-Inv s t c cs stop is q p tail split))

accept-Inv :
    {ws : List Write} {s s' : Server} (junk : Link) (op : Op) (m : Message) (r : ℤ)
    (m' : Option Message)
    → m.opcode ≡ opcode_of op
    → is_refused m ≡ false
    → invoke junk s (some m) ≡ ret (r, s', m')
    → Inv ws s
    → Inv (ws ++ ((op, m) ∷ [])) s'
accept-Inv {ws} {s} {s'} junk op m r m' e accepted run i =
    PutOff-Inv op junk m
      (IfReturns-ret (λ x. PutOff op junk m s x.1) (enqueue junk op (opcode_of op) s m) (r, s', m')
        (enqueue-PutOff op (opcode_of op) junk s m)
        (sym (invoke-enqueue junk s i.table op m i.is_server.table e accepted) ∙ run))
      i

Step-Inv : {ws : List Write} {s s' : Server} → Step s s' → Inv ws s → Inv ws s'
Step-Inv {ws} {s} {s'} (round e) i =
    IfReturns-ret (Inv ws) (process_task s) s'
      (round-Inv s i.table i.cells i.stop i.is_server i.sound i.tail i.split) e
Step-Inv (memory s store) i = record {
  cells = i.cells;
  stop = i.stop;
  table = i.table;
  is_server = record {
    table = i.is_server.table;
    is_queue = i.is_server.is_queue;
    numbers = i.is_server.numbers;
  };
  sound = i.sound;
  tail = i.tail;
  split = i.split;
}

pub Reach-Inv : {s : Server} {ws : List Write} {s' : Server} → Inv [] s → Reach s ws s' → Inv ws s'
Reach-Inv i here = i
Reach-Inv i (accept reached junk op m r m' e accepted run) =
    accept-Inv junk op m r m' e accepted run (Reach-Inv i reached)
Reach-Inv i (next r e) = Step-Inv e (Reach-Inv i r)
