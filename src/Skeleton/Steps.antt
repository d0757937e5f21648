-- ===== src/Skeleton/Steps.antt =====
-- The steps of source/table_skel.c: what a write and a round of `process_task` do, if they return.
use hash_map_storage_service.Prelude.{◌≡◌, refl, Option, none, some, ◌+◌}
use hash_map_storage_service.Prelude.Int.{ℤ, pos, ◌+ℤ◌}
use hash_map_storage_service.Prelude.Outcome.{
  Outcome, ret, fault, out_of_fuel, ◌>>=◌, IfReturns, IfReturns-then,
}
use hash_map_storage_service.Table.{TableT}
use hash_map_storage_service.Table.Sound.{
  IsSound, LeavesSound, table_put-IsSound, table_del-IsSound,
}
use hash_map_storage_service.Fifo.{Link, Task, Op, del, put, Fifo, new_task, fifo_add}
use hash_map_storage_service.Message.{Blocks, Message, read_text}
use hash_map_storage_service.Data.{Data}
use hash_map_storage_service.Message.Content
use hash_map_storage_service.Skeleton.{Server, task_value, put_value, run_task, task_of, enqueue}

-- The task of an operation was added, with the next number.
pub record PutOff (op : Op) (junk : Link) (m : Message) (s s' : Server) : Type 0 where
  pub result : ℤ
  pub added :
      fifo_add (new_task junk (task_of op s.last_assigned m) s.queue) s.queue.fresh
      ≡ ret (result, s'.queue)
  pub table : s'.table ≡ s.table
  pub last_assigned : s'.last_assigned ≡ s.last_assigned + 1
  pub op_count : s'.op_count ≡ s.op_count

-- A delete or put that was accepted, if it returns, leaves the table and adds its task.
pub enqueue-PutOff :
    (op : Op) (opcode : ℤ) (junk : Link) (s : Server) (m : Message)
    → IfReturns (enqueue junk op opcode s m) (λ r. PutOff op junk m s r.1)
unfolding enqueue
enqueue-PutOff op opcode junk s m =
    at_result (fifo_add (new_task junk (task_of op s.last_assigned m) s.queue) s.queue.fresh) refl
  where
    at_result :
        (o : Outcome (ℤ × Fifo))
        → fifo_add (new_task junk (task_of op s.last_assigned m) s.queue) s.queue.fresh ≡ o
        → IfReturns {A = ℤ × Server × Option Message}
            (o >>= λ (_, q). ret (
              pos 0,
              record s { queue = q; last_assigned = s.last_assigned + 1 },
              some (record m {
                opcode = opcode +ℤ pos 1;
                c_type = Content.none;
                data_size = pos s.last_assigned;
              }),
            ))
            (λ r. PutOff op junk m s r.1)
    at_result (ret (r, q)) e = record {
      result = r;
      added = e;
      table = refl;
      last_assigned = refl;
      op_count = refl;
    }
    at_result fault e = tt
    at_result out_of_fuel e = tt

-- What the worker does with a task, if it returns, leaves a sound table.
pub run_task-IsSound :
    (h : Blocks) (t : TableT) (is : IsSound t) (op : Op) (task : Task)
    → IfReturns (run_task h (some t) op task) LeavesSound
unfolding run_task put_value
run_task-IsSound h t is del task =
    IfReturns-then LeavesSound (read_text h task.key) _ (table_del-IsSound t is)
run_task-IsSound h t is put task =
    IfReturns-then LeavesSound (task_value h task) (put_value h (some t) task) at_value
  where
    at_value : (d : Option Data) → IfReturns (put_value h (some t) task d) LeavesSound
    at_value none = (t, refl, is)
    at_value (some d) =
        IfReturns-then LeavesSound (read_text h task.key) _
          (λ key. table_put-IsSound t is key (some d))
