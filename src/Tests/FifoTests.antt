-- ===== src/Tests/FifoTests.antt =====
-- Queues of source/fifo.c with one task and with two.
use hash_map_storage_service.Prelude.{ℕ, ◌≡◌, refl, none, some, [], ◌∷◌, arith, ◌==◌, if◌then◌else◌}
use hash_map_storage_service.Prelude.Int.{pos}
use hash_map_storage_service.Prelude.Outcome.{fault, ◌>>=◌}
use hash_map_storage_service.Fifo.{
  Task, Fifo, put, del, write, new_task, fifo_add, pop, free_task, fifo_create, set_proximo, load,
}
use hash_map_storage_service.Fifo.Chain.{Cells, IsQueue}
use hash_map_storage_service.Fifo.Add.{cell}
use hash_map_storage_service.Fifo.Drained.{pop-fifo_add-twice_fault}

abbrev pub delete_at : ℕ → Task
delete_at n = record {
  op_n = n;
  op = del;
  key = some 0;
  bytes = none;
  datasize = pos 0;
  proximo = some none;
}

abbrev pub put_at : ℕ → Task
put_at n = record {
  op_n = n;
  op = put;
  key = some 0;
  bytes = some 1;
  datasize = pos 2;
  proximo = some none;
}

-- one task, and no tail
abbrev pub first : Fifo
first = record {
  tasks = λ a. if a == 0 then some (delete_at 0) else none;
  fresh = 1;
  head = some (some 0);
  tail = none;
  size = 1;
}

abbrev pub first_cells : Cells
first_cells = cell 0 (delete_at 0) ∷ []

pub first-IsQueue : IsQueue first first_cells (some none)
first-IsQueue = record {
  chain = (refl, (some none, refl, refl, refl));
  count = refl;
  below = (omega arith, tt);
}

-- two tasks, the last of which is the tail
abbrev two : Fifo
two = record {
  tasks = λ a.
      if a == 0
      then some (record (delete_at 0) { proximo = some (some 1) })
      else if a == 1
      then some (put_at 1)
      else none;
  fresh = 2;
  head = some (some 0);
  tail = some 1;
  size = 2;
}

-- the same queue when its first task is gone
abbrev last_one : Fifo
last_one = record {
  tasks = λ a. if a == 1 then some (put_at 1) else none;
  fresh = 2;
  head = some (some 1);
  tail = some 1;
  size = 1;
}

pop-fifo_add-twice_fault_example :
    (pop last_one >>= λ r.
    fifo_add (new_task none (put_at 2) (free_task r.1 1)) (free_task r.1 1).fresh >>= λ r'.
    fifo_add (new_task none (put_at 3) r'.1) (r'.1).fresh)
    ≡ fault
pop-fifo_add-twice_fault_example =
    pop-fifo_add-twice_fault last_one (cell 1 (put_at 1)) (some none) (put_at 2) (put_at 3) none
      none
      (record {
        chain = (refl, (some none, refl, refl, refl));
        count = refl;
        below = (omega arith, tt);
      })
      refl

-- From an empty queue: two tasks, two rounds of the worker, and two more tasks.
drained :
    (do
      (_, q) ← fifo_add (new_task (some none) (put_at 0) fifo_create) 0
      (_, q₁) ← fifo_add (new_task (some none) (put_at 1) q) 1
      (_, q₂) ← pop q₁
      (_, q₃) ← pop (free_task q₂ 0)
      (_, q₄) ← fifo_add (new_task (some none) (put_at 2) (free_task q₃ 1)) 2
      fifo_add (new_task (some none) (put_at 3) q₄) 3)
    ≡ fault
unfolding fifo_add new_task fifo_create pop free_task write set_proximo load
drained = refl
