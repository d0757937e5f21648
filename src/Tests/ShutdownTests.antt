-- ===== src/Tests/ShutdownTests.antt =====
-- The end of the server of source/table_skel.c, with one delete that waits.
use hash_map_storage_service.Prelude.{◌≡◌, refl, none, some, inr, arith}
use hash_map_storage_service.Prelude.Int.{pos}
use hash_map_storage_service.Prelude.Outcome.{ret, fault, ◌>>=◌}
use hash_map_storage_service.Fifo.{del, Fifo}
use hash_map_storage_service.Message.{Blocks, write}
use hash_map_storage_service.Skeleton.{Server, invoke}
use hash_map_storage_service.Skeleton.Enqueue.{answer_of}
use hash_map_storage_service.Shutdown.{fifo_delete}
use hash_map_storage_service.Shutdown.Clear.{free_all}
use hash_map_storage_service.Shutdown.Queue.{all_blocks, NoTasks, fifo_delete-free_all}
use hash_map_storage_service.Shutdown.Pending.{invoke-free_message-fifo_delete_fault}
use hash_map_storage_service.Tests.FifoTests.{first, first_cells, first-IsQueue}
use hash_map_storage_service.Tests.TableTests.{table}
use hash_map_storage_service.Tests.SkeletonTests.{waiting, waiting-IsServer, delete_b, freed}

fifo_delete-free_all_example :
    (r : Fifo) × NoTasks first first_cells r
    × ((h : Blocks)
        → fifo_delete h first ≡ (free_all (all_blocks first_cells) h >>= λ g. ret (g, r)))
fifo_delete-free_all_example = fifo_delete-free_all first first_cells (some none) first-IsQueue

invoke-free_message-fifo_delete_fault_example :
    (s' : Server) × (invoke none waiting (some delete_b)
      ≡ ret (pos 0, s', some (answer_of del 1 delete_b)))
    × (s'.store ≡ waiting.store)
    × (fifo_delete (write waiting.store.blocks 0 none) s'.queue ≡ fault)
invoke-free_message-fifo_delete_fault_example =
    invoke-free_message-fifo_delete_fault none (some none) waiting table first_cells del delete_b 0
      (write waiting.store.blocks 0 none) waiting-IsServer (inr (omega arith, refl)) refl refl refl
      freed
