-- ===== src/Fifo.antt =====
-- source/fifo.c, include/fifo.h, include/task.h: the queue of tasks between the network thread and
-- the worker.
--
-- Tasks lie at addresses of a region of their own, which are not used twice. `malloc` does not
-- initialise a task, and the source never sets `proximo` of a new one, so the link of a task may
-- be indeterminate.
pub mod Chain
pub mod Add
pub mod Pop
pub mod Drained
pub mod Waiting
use hash_map_storage_service.Prelude.{
  ℕ, zero, suc, ◌+◌, ◌-◌, Bool, true, false, Option, none, some, ◌==◌, if◌then◌else◌,
}
use hash_map_storage_service.Prelude.Int.{ℤ, pos, minus_one}
use hash_map_storage_service.Prelude.Outcome.{Outcome, ret, fault, out_of_fuel, ◌>>=◌, deref}

-- The address of a task or of a block of bytes; `none` is NULL.
abbrev pub Ptr : Type 0
Ptr = Option ℕ

-- A pointer that may be indeterminate, which is `none`.
abbrev pub Link : Type 0
Link = Option Ptr

-- The operation of a task: 0 is a delete, anything else a put.
pub data Op : Type 0 where
  del put : Op

-- `struct task_t`; key and data point to blocks of the message that made the task.
pub record Task : Type 0 where
  pub op_n : ℕ
  pub op : Op
  pub key : Ptr
  pub bytes : Ptr
  pub datasize : ℤ
  pub proximo : Link

abbrev pub Tasks : Type 0
Tasks = ℕ → Option Task

-- `struct fifo`, the tasks that are allocated, and the next unused address.
pub record Fifo : Type 0 where
  pub tasks : Tasks
  pub fresh : ℕ
  pub head : Link
  pub tail : Ptr
  pub size : ℕ

unfoldable pub write : Tasks → ℕ → Option Task → Tasks
write h a t b = if b == a then t else h b

unfoldable pub fifo_create : Fifo
fifo_create = record { tasks = λ _. none; fresh = 0; head = some none; tail = none; size = 0 }

-- The object behind a link: a fault if the link is indeterminate, NULL, or freed.
unfoldable pub load : Tasks → Link → Outcome Task
load h none = fault
load h (some none) = fault
load h (some (some a)) = deref (h a)

-- `p->proximo = a`
unfoldable pub set_proximo : Tasks → Link → ℕ → Outcome Tasks
set_proximo h none a = fault
set_proximo h (some none) a = fault
set_proximo h (some (some p)) a =
    deref (h p) >>= λ t. ret (write h p (some (record t { proximo = some (some a) })))

-- `malloc` of a task, whose link is what the memory held, and the writes of its other fields
unfoldable pub new_task : Link → Task → Fifo → Fifo
new_task junk t q = record q {
  tasks = write q.tasks q.fresh (some (record t { proximo = junk }));
  fresh = suc q.fresh;
}

-- behind the head, or behind the tail
pub link_task : ℕ → Ptr → Fifo → Outcome (ℤ × Fifo)
link_task a none q = do
  tasks ← set_proximo q.tasks q.head a
  ret (pos 0, record q { tasks = tasks; tail = some a; size = q.size + 1 })
link_task a (some t) q = do
  tasks ← set_proximo q.tasks (some (some t)) a
  ret (pos 0, record q { tasks = tasks; tail = some a; size = q.size + 1 })

unfoldable pub fifo_add : Fifo → ℕ → Outcome (ℤ × Fifo)
unfolding link_task
fifo_add q a =
    if q.size == 0
    then ret (pos 0, record q { head = some (some a); size = q.size + 1 })
    else link_task a q.tail q

unfoldable pub pop : Fifo → Outcome (Link × Fifo)
pop q =
    if q.size == 0
    then ret (some none, q)
    else load q.tasks q.head >>= λ t. ret (q.head, record q { head = t.proximo; size = q.size - 1 })

-- `free` of a task: its address holds nothing.
unfoldable pub free_task : Fifo → ℕ → Fifo
free_task q a = record q { tasks = write q.tasks a none }
