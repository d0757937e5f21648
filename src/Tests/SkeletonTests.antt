-- ===== src/Tests/SkeletonTests.antt =====
-- A server of source/table_skel.c.
use hash_map_storage_service.Prelude.{
  ◌+◌, ◌≡◌, refl, Option, none, some, [], ◌∷◌, inr, arith, ◌==◌, if◌then◌else◌,
}
use hash_map_storage_service.Prelude.Int.{ℤ, pos, minus_one}
use hash_map_storage_service.Prelude.Outcome.{ret, ◌>>=◌}
use hash_map_storage_service.Data.{c_string}
use hash_map_storage_service.Table.{TableT, table_del}
use hash_map_storage_service.Table.Delete.{table_del-Deleted}
use hash_map_storage_service.Fifo.{del, fifo_create, Fifo}
use hash_map_storage_service.Fifo.Chain.{IsQueue}
use hash_map_storage_service.Message.{Store, Message, read_text, free_message, free_block, write}
use hash_map_storage_service.Message.Opcode
use hash_map_storage_service.Message.Content
use hash_map_storage_service.Skeleton.{Server, verify, invoke, process_task, run_task}
use hash_map_storage_service.Skeleton.Numbers.{is_between}
use hash_map_storage_service.Skeleton.Verify.{verify-done}
use hash_map_storage_service.Skeleton.Enqueue.{IsServer, Enqueued, answer_of, invoke-Enqueued}
use hash_map_storage_service.Skeleton.Worker.{after, Processed, process_task-first}
use hash_map_storage_service.Skeleton.Serve.{invoke-process_task}
use hash_map_storage_service.Tests.FifoTests.{first, first_cells, first-IsQueue, delete_at}
use hash_map_storage_service.Tests.ListTests.{b}
use hash_map_storage_service.Tests.TableTests.{
  table, rows, table-IsTable, table-IsReady, hashes, b_there,
}

-- The block 0 holds the key b.
abbrev store : Store
store = record { blocks = λ x. if x == 0 then some (some 98 ∷ some 0 ∷ []) else none; fresh = 1 }

abbrev pub delete_b : Message
delete_b = record {
  opcode = Opcode.del;
  c_type = Content.key;
  data_size = pos 0;
  bytes = none;
  key = some 0;
  n_keys = 0;
  keys = none;
}

-- the first delete waits
abbrev pub waiting : Server
waiting = record {
  table = some table;
  queue = first;
  last_assigned = 1;
  op_count = 0;
  store = store;
}

pub waiting-IsServer : IsServer waiting table first_cells (some none)
waiting-IsServer = record { table = refl; is_queue = first-IsQueue; numbers = (refl, refl) }

verify-done_example :
    verify first 0 (pos 0) ≡ ret (if is_between 0 0 (pos 0) then pos 0 else minus_one)
verify-done_example = verify-done first first_cells 0 1 (refl, refl) (pos 0) first-IsQueue

invoke-Enqueued_example :
    (s' : Server) × (invoke none waiting (some delete_b)
      ≡ ret (pos 0, s', some (answer_of del 1 delete_b)))
    × Enqueued waiting table first_cells none del delete_b s'
invoke-Enqueued_example =
    invoke-Enqueued none (some none) waiting table first_cells del delete_b waiting-IsServer
      (inr (omega arith, refl)) refl refl

process_task-first_example :
    (q : Fifo) × (process_task waiting ≡ (
      run_task store.blocks (some table) del (delete_at 0) >>= λ r.
      ret (after waiting table _ [] (some none) waiting-IsServer q r)))
    × ((r : ℤ × Option TableT)
        → Processed waiting table _ []
            (some none)
            waiting-IsServer
            (after waiting table _ [] (some none) waiting-IsServer q r))
process_task-first_example = process_task-first waiting table _ [] (some none) waiting-IsServer

abbrev pub idle : Server
idle = record {
  table = some table;
  queue = fifo_create;
  last_assigned = 0;
  op_count = 0;
  store = store;
}

pub idle-IsServer : IsServer idle table [] (some none)
unfolding fifo_create
idle-IsServer = record {
  table = refl;
  is_queue = record { chain = refl; count = refl; below = tt };
  numbers = refl;
}

pub no_tail : fifo_create.tail ≡ none
unfolding fifo_create
no_tail = refl

key_there : read_text store.blocks (some 0) ≡ ret (some b)
unfolding read_text c_string
key_there = refl

abbrev deleted : (t' : TableT) × (table_del (some table) (some b) ≡ ret (pos 0, some t'))
deleted =
    let (t', _, run, _) =
      table_del-Deleted table rows b 0 table-IsTable hashes.1 table-IsReady b_there in
    (t', run)

invoke-process_task_example :
    (s' : Server) × (s'' : Server) × (invoke none idle (some delete_b)
      ≡ ret (pos 0, s', some (answer_of del 0 delete_b)))
    × (process_task s' ≡ ret s'')
    × (s''.table ≡ some deleted.0)
    × (s''.op_count ≡ 0 + 1)
    × IsQueue s''.queue [] none
invoke-process_task_example =
    invoke-process_task none (some none) idle table del delete_b idle-IsServer no_tail refl refl b 0
      [] (pos 0, some deleted.0) key_there deleted.1

pub freed :
    free_message store.blocks (some (answer_of del 1 delete_b)) ≡ ret (write store.blocks 0 none)
unfolding free_message free_block
freed = refl

pub freed_request : free_message store.blocks (some delete_b) ≡ ret (write store.blocks 0 none)
unfolding free_message free_block
freed_request = refl
