-- ===== src/Threads.antt =====
-- The two threads of the server in source/table_skel.c and source/network_server.c, in any order.
--
-- queue_lock makes a delete or put in `invoke` and a round of `process_task` one step each. The other
-- requests take no lock. They read the table and the queue, perhaps while a round changes them, and
-- write to their message and new blocks only, as receiving and freeing messages does: all this is a
-- change of the store, which can come at any time.
pub mod Split
pub mod Reached
pub mod Writes
pub mod Reads
pub mod Rounds
use hash_map_storage_service.Prelude.{◌≡◌, Option, some, List, [], ◌∷◌, ◌++◌, false}
use hash_map_storage_service.Prelude.Int.{ℤ}
use hash_map_storage_service.Prelude.Outcome.{ret}
use hash_map_storage_service.Fifo.{Link, Op}
use hash_map_storage_service.Message.{Store, Message}
use hash_map_storage_service.Skeleton.{Server, is_refused, invoke, process_task}
use hash_map_storage_service.Skeleton.Enqueue.{opcode_of}

-- A delete or put that was accepted, and its message.
abbrev pub Write : Type 0
Write = Op × Message

-- A step that does not fault and accepts no write.
pub data Step : Server → Server → Type 0 where
  round : {s s' : Server} → process_task s ≡ ret s' → Step s s'
  memory : (s : Server) (store : Store) → Step s (record s { store = store })

-- The servers that steps reach, with the writes that were accepted on the way, in their order.
pub data Reach (s : Server) : List Write → Server → Type 0 where
  here : Reach s [] s
  accept :
      {ws : List Write} {t u : Server}
      → Reach s ws t
      → (junk : Link) (op : Op) (m : Message) (r : ℤ) (m' : Option Message)
      → m.opcode ≡ opcode_of op
      → is_refused m ≡ false
      → invoke junk t (some m) ≡ ret (r, u, m')
      → Reach s (ws ++ ((op, m) ∷ [])) u
  next : {ws : List Write} {t u : Server} → Reach s ws t → Step t u → Reach s ws u
