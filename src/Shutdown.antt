-- ===== src/Shutdown.antt =====
-- The end of the server: `fifo_delete` of source/fifo.c, and `sendMessage` of source/table_skel.c.
pub mod Clear
pub mod Queue
pub mod Pending
use hash_map_storage_service.Prelude.{
  ℕ, zero, suc, Bool, true, false, none, some, ◌==◌, if◌then◌else◌,
}
use hash_map_storage_service.Prelude.Outcome.{Outcome, ret, fault, out_of_fuel, ◌>>=◌, deref}
use hash_map_storage_service.Fifo.{Ptr, Link, Op, del, put, Tasks, Fifo, pop, free_task}
use hash_map_storage_service.Prelude.{Option, List}
use hash_map_storage_service.Prelude.Int.{ℤ}
use hash_map_storage_service.Data.{Block}
use hash_map_storage_service.NodeList.{Heap}
use hash_map_storage_service.Table.Destroy.{table_destroy}
use hash_map_storage_service.Message.{Blocks, Store, Message, MessageT, to_message_t, free_block}
use hash_map_storage_service.Socket.{Writes}
use hash_map_storage_service.Skeleton.{Server}
use hash_map_storage_service.NetworkServer.{Sent, send_frame}

-- The task behind what `pop` returned is used.
address : Link → Outcome ℕ
address none = fault
address (some none) = fault
address (some (some a)) = ret a

-- The data of a put.
unfoldable pub free_data : Blocks → Op → Ptr → Outcome Blocks
free_data h del p = ret h
free_data h put p = free_block h p

delete_loop : ℕ → Blocks → Fifo → Outcome (Blocks × Fifo)
delete_loop zero h q = out_of_fuel
delete_loop (suc n) h q = elim (q.size == 0) [
  | true ↦ ret (h, q)
  | false ↦ do
    (p, q') ← pop q
    a ← address p
    t ← deref (q'.tasks a)
    h' ← free_block h t.key
    h'' ← free_data h' t.op t.bytes
    delete_loop n h'' (free_task q' a)
]

-- The blocks and the queue that are left; the loop has a unit of fuel more than there are tasks.
unfoldable pub fifo_delete : Blocks → Fifo → Outcome (Blocks × Fifo)
unfolding delete_loop address
fifo_delete h q = delete_loop (suc q.size) h q

-- The pointer `messageServer`, which `invoke` sets: NULL, or the address of a message, which holds
-- nothing when the message was freed.
abbrev pub Held : Type 0
Held = Option (Option Message)

-- The socket is that to the next server.
unfoldable pub send_message : (MessageT → Block) → Writes → Store → Held → Outcome Sent
send_message pack calls s messageServer = do
  held ← deref messageServer
  m ← deref held
  r ← to_message_t s.blocks m
  send_frame calls s m (pack r)
