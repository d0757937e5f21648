-- ===== src/Skeleton.antt =====
-- source/table_skel.c: the server's table, its queue of tasks, and the operations on them.
--
-- A server step is one call of `invoke` by the network thread, or one round of the loop in
-- `process_task` by the worker. A lock keeps writes and rounds apart; the requests that read take
-- none, and are taken here on a server that no round changes meanwhile. A round that finds no task
-- changes nothing. The table, its lists and its keys are values; what a message or a task points to is
-- a block of the store. The global `messageServer`, which only the end of the worker reads, is left
-- out. Counters do not overflow.
pub mod Numbers
pub mod Verify
pub mod Enqueue
pub mod Worker
pub mod Serve
pub mod Refuse
pub mod Reads
pub mod Steps
use hash_map_storage_service.Prelude.{
  ℕ, zero, suc, ◌+◌, Bool, true, false, ◌||◌, Option, none, some, List, length, leb, ◌==◌,
  if◌then◌else◌,
}
use hash_map_storage_service.Prelude.Int.{ℤ, pos, minus_one, pos_part, ◌+ℤ◌, leb_ℤ, ltb_ℤ, eqb_ℤ}
use hash_map_storage_service.Prelude.Outcome.{Outcome, ret, fault, out_of_fuel, ◌>>=◌, deref}
use hash_map_storage_service.Data.{Block, Data, data_create2}
use hash_map_storage_service.Table.{
  TableT, table_put, table_get, table_del, table_size, table_get_keys,
}
use hash_map_storage_service.Fifo.{
  Ptr, Link, Op, del, put, Task, Tasks, Fifo, load, new_task, fifo_add, pop, free_task,
}
use hash_map_storage_service.Message.{Blocks, Store, Message, alloc, read_text}
use hash_map_storage_service.Message.Opcode
use hash_map_storage_service.Message.Content

-- The globals of the file.
pub record Server : Type 0 where
  pub table : Option TableT
  pub queue : Fifo
  pub last_assigned : ℕ
  pub op_count : ℕ
  pub store : Store

-- The result of a call, and the server and the message that it leaves.
abbrev pub Reply : Type 0
Reply = ℤ × Server × Option Message

-- The loop of `verify`, on fuel. A link that was never set is read when the loop reaches it.
verify_loop : ℕ → Tasks → Link → ℤ → ℕ → Outcome ℤ
verify_loop zero h p op_n op_count = out_of_fuel
verify_loop (suc n) h none op_n op_count = fault
verify_loop (suc n) h (some none) op_n op_count =
    ret (if leb_ℤ (pos op_count) op_n || ltb_ℤ op_n (pos 0) then minus_one else pos 0)
verify_loop (suc n) h (some (some a)) op_n op_count = deref (h a) >>= λ t.
    if eqb_ℤ (pos t.op_n) op_n then ret minus_one else verify_loop n h t.proximo op_n op_count

-- A queue has no more tasks than its size, so that the fuel is enough.
unfoldable pub verify : Fifo → ℕ → ℤ → Outcome ℤ
unfolding verify_loop
verify q op_count op_n = verify_loop (suc q.size) q.tasks q.head op_n op_count

-- A delete sets neither `data` nor `datasize` of its task, and none of them is read.
unfoldable pub task_of : Op → ℕ → Message → Task
task_of del n m = record {
  op_n = n;
  op = del;
  key = m.key;
  bytes = none;
  datasize = pos 0;
  proximo = none;
}
task_of put n m = record {
  op_n = n;
  op = put;
  key = m.key;
  bytes = m.bytes;
  datasize = m.data_size;
  proximo = none;
}

-- The branches of a delete and a put: a task for the worker, whose number is the answer. `junk` is
-- what the memory of the task held.
unfoldable pub enqueue : Link → Op → ℤ → Server → Message → Outcome Reply
enqueue junk op opcode s m = do
  let q = s.queue
  (_, q') ← fifo_add (new_task junk (task_of op s.last_assigned m) q) q.fresh
  ret (
    pos 0,
    record s { queue = q'; last_assigned = s.last_assigned + 1 },
    some (record m {
      opcode = opcode +ℤ pos 1;
      c_type = Content.none;
      data_size = pos s.last_assigned;
    }),
  )

answer_size : Server → Message → Outcome Reply
answer_size s m = ret (
  pos 0,
  s,
  some (record m {
    opcode = Opcode.size +ℤ pos 1;
    c_type = Content.result;
    data_size = table_size s.table;
  }),
)

-- `msg->data = d->data`: the block of the copy gets its address.
place : Store → Option Block → Ptr × Store
place s none = (none, s)
place s (some b) = let (a, s') = alloc s b in (some a, s')

answer_value : Server → Message → Option Data → Reply
unfolding place
answer_value s m none = (
  pos 0,
  s,
  some (record m {
    opcode = Opcode.get +ℤ pos 1;
    c_type = Content.value;
    data_size = pos 0;
    bytes = none;
  }),
)
answer_value s m (some d) =
    let (a, store) = place s.store d.bytes in
    (
      pos 0,
      record s { store = store },
      some (record m {
        opcode = Opcode.get +ℤ pos 1;
        c_type = Content.value;
        data_size = d.datasize;
        bytes = a;
      }),
    )

answer_get : Server → Message → Outcome Reply
unfolding answer_value
answer_get s m = do
  key ← read_text s.store.blocks m.key
  d ← table_get s.table key
  ret (answer_value s m d)

-- The copies go to an array of as many elements as the table says.
answer_keys : Server → Message → Outcome Reply
answer_keys s m =
    let n = pos_part (table_size s.table) in
    let m' = record m { opcode = Opcode.getkeys +ℤ pos 1; c_type = Content.keys; n_keys = n } in
    if n == 0
    then ret (pos 0, s, some (record m' { keys = none }))
    else table_get_keys s.table >>= λ keys.
        if leb (length keys) n then ret (pos 0, s, some (record m' { keys = some keys })) else fault

answer_verify : Server → Message → Outcome Reply
answer_verify s m = do
  done ← verify s.queue s.op_count m.data_size
  ret (
    pos 0,
    s,
    some (record m { opcode = Opcode.verify +ℤ pos 1; c_type = Content.result; data_size = done }),
  )

answer_error : Server → Message → Outcome Reply
answer_error s m =
    ret (minus_one, s, some (record m { opcode = Opcode.error; c_type = Content.none }))

-- The chain of tests on the opcode.
unfoldable pub dispatch : Link → Server → Message → Outcome Reply
unfolding answer_size answer_get answer_keys answer_verify answer_error
dispatch junk s m =
    if eqb_ℤ m.opcode Opcode.size
    then answer_size s m
    else if eqb_ℤ m.opcode Opcode.del
    then enqueue junk del Opcode.del s m
    else if eqb_ℤ m.opcode Opcode.get
    then answer_get s m
    else if eqb_ℤ m.opcode Opcode.put
    then enqueue junk put Opcode.put s m
    else if eqb_ℤ m.opcode Opcode.getkeys
    then answer_keys s m
    else if eqb_ℤ m.opcode Opcode.verify
    then answer_verify s m
    else answer_error s m

-- The message is refused unchanged.
abbrev pub is_refused : Message → Bool
is_refused m = ltb_ℤ m.opcode (pos 10) || (ltb_ℤ (pos 60) m.opcode || ltb_ℤ m.c_type (pos 10))

invoke_on : Link → Server → Option TableT → Option Message → Outcome Reply
invoke_on junk s none msg = ret (minus_one, s, msg)
invoke_on junk s (some t) none = ret (minus_one, s, none)
invoke_on junk s (some t) (some m) =
    if is_refused m then ret (minus_one, s, some m) else dispatch junk s m

unfoldable pub invoke : Link → Server → Option Message → Outcome Reply
unfolding invoke_on
invoke junk s msg = invoke_on junk s s.table msg

-- The value of a put, NULL where `data_create2` refuses it.
unfoldable pub task_value : Blocks → Task → Outcome (Option Data)
task_value h t = if leb_ℤ t.datasize (pos 0) then ret none else elim t.bytes [
  | none ↦ ret none
  | some a ↦ deref (h a) >>= λ b. ret (data_create2 t.datasize (some b))
]

-- `table_put` reads the key only when there is a value.
put_value : Blocks → Option TableT → Task → Option Data → Outcome (ℤ × Option TableT)
put_value h table t none = ret (minus_one, table)
put_value h table t (some d) = read_text h t.key >>= λ key. table_put table key (some d)

-- What the worker does with a task.
unfoldable pub run_task : Blocks → Option TableT → Op → Task → Outcome (ℤ × Option TableT)
unfolding put_value
run_task h table del t = read_text h t.key >>= λ key. table_del table key
run_task h table put t = task_value h t >>= λ d. put_value h table t d

-- The round for the task at the address a, behind the pop.
finish : Server → ℕ → Fifo → Outcome Server
finish s a q = do
  t ← deref (q.tasks a)
  (_, table) ← run_task s.store.blocks s.table t.op t
  ret (record s { table = table; queue = free_task q a; op_count = s.op_count + 1 })

take_task : Server → Link → Outcome Server
unfolding finish
take_task s none = fault
take_task s (some none) = ret s
take_task s (some (some a)) = pop s.queue >>= λ r. finish s a r.1

-- One round of the loop.
unfoldable pub process_task : Server → Outcome Server
unfolding take_task
process_task s = if s.queue.size == 0 then ret s else take_task s s.queue.head
