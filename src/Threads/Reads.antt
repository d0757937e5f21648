-- ===== src/Threads/Reads.antt =====
-- The table and the reads of source/table_skel.c in every order of the steps of its threads.
use hash_map_storage_service.Prelude.{ℕ, ◌<◌, ◌≡◌, false, some, List}
use hash_map_storage_service.Prelude.Int.{pos, ltb_ℤ}
use hash_map_storage_service.Prelude.Outcome.{ret, ◌>>=◌}
use hash_map_storage_service.Prelude.Text.{Text}
use hash_map_storage_service.NodeList.Cells.{Cells}
use hash_map_storage_service.Table.{TableT}
use hash_map_storage_service.Table.Rows.{IsTable}
use hash_map_storage_service.Table.View.{view}
use hash_map_storage_service.Table.Get.{dup_found}
use hash_map_storage_service.Fifo.{Link}
use hash_map_storage_service.Message.{Message, read_text}
use hash_map_storage_service.Message.Opcode
use hash_map_storage_service.Skeleton.{Server, invoke}
use hash_map_storage_service.Skeleton.Reads.{asking, size_of, keys_in, reply_value, invoke-view}
use hash_map_storage_service.Threads.{Write, Reach}
use hash_map_storage_service.Threads.Reached.{Reach-Inv}
use hash_map_storage_service.Threads.Writes.{started_with, start-Inv}

-- In every state that steps of the threads reach from a start with at least one list, without a fault
-- and in any order, whatever was put and deleted, there is a sound table: its size counts the cells of
-- its lists, and a key is only in the list that it hashes to, once.
pub Reach-IsTable :
    {s : Server} {ws : List Write} (n : ℕ) (s₀ : Server)
    → 0 < n
    → Reach (started_with n s₀) ws s
    → (t : TableT) × (xss : List Cells) × (s.table ≡ some t) × IsTable t xss
Reach-IsTable {s} {ws} n s₀ lt r =
    let i = Reach-Inv (start-Inv n s₀ lt) r in
    (i.table, i.sound.rows, i.is_server.table, i.sound.is_table)

-- In such a state in which no task waits, so that the worker leaves the table alone until the next
-- write, for a message with a content type of 10 or more and the key k, `invoke` of the three requests
-- that read answers with the size, all the keys, and the copy that `data_dup` makes of the value of k
-- in the abstract map of a sound table.
pub Reach-invoke :
    {s : Server} {ws : List Write} (n : ℕ) (s₀ : Server) (junk : Link) (m : Message) (k : Text)
    → 0 < n
    → Reach (started_with n s₀) ws s
    → s.queue.size ≡ 0
    → ltb_ℤ m.c_type (pos 10) ≡ false
    → read_text s.store.blocks m.key ≡ ret (some k)
    → (t : TableT) × (xss : List Cells) × (s.table ≡ some t)
      × IsTable t xss
      × (invoke junk s (some (asking Opcode.size m)) ≡ ret (pos 0, s, some (size_of t m)))
      × (invoke junk s (some (asking Opcode.getkeys m)) ≡ ret (pos 0, s, some (keys_in t xss m)))
      × (invoke junk s (some (asking Opcode.get m))
          ≡ (dup_found (view k xss) >>= λ d. ret (reply_value s m d)))
Reach-invoke {s} {ws} n s₀ junk m k lt r idle accepted key =
    let (t, xss, table, is) = Reach-IsTable n s₀ lt r in
    let (size, keys, value) = invoke-view junk s t xss m k table is accepted key in
    (t, xss, table, is, size, keys, value)
