-- ===== src/Tests/ThreadsTests.antt =====
-- The threads of source/table_skel.c: a server of one list that gets a delete, runs it, and gets another.
use mathlib.Core.Path.{subst}
use hash_map_storage_service.Prelude.{
  ◌+◌, ◌≡◌, refl, sym, ap, ◌⊎◌, inl, none, some, List, [], ◌∷◌, ◌++◌, length, arith,
}
use hash_map_storage_service.Prelude.Int.{pos, minus_one}
use hash_map_storage_service.Prelude.Outcome.{ret, fault, ◌>>=◌}
use hash_map_storage_service.NodeList.Cells as ListCells
use hash_map_storage_service.NodeList.Cells.{find}
use hash_map_storage_service.Table.Rows.{IsTable}
use hash_map_storage_service.Table.Get.{dup_found}
use hash_map_storage_service.Message.Opcode
use hash_map_storage_service.Skeleton.Reads.{asking, size_of, keys_in, reply_value}
use hash_map_storage_service.Threads.Reads.{Reach-IsTable, Reach-invoke}
use hash_map_storage_service.Table.{TableT, table_del}
use hash_map_storage_service.Table.View.{view}
use hash_map_storage_service.Table.Delete.{table_del-absent}
use hash_map_storage_service.Table.Create.{new_table, empty_rows, table_create_lem}
use hash_map_storage_service.Fifo.{Link, del, fifo_create}
use hash_map_storage_service.Fifo.Chain.{Cells, IsQueue}
use hash_map_storage_service.Message.{read_text}
use hash_map_storage_service.Data.{c_string}
use hash_map_storage_service.Skeleton.{Server, invoke, process_task}
use hash_map_storage_service.Skeleton.Enqueue.{IsServer, answer_of, invoke-Enqueued}
use hash_map_storage_service.Skeleton.Serve.{invoke-process_task}
use hash_map_storage_service.Startup.State.{new_server, new_start, new_server-IsServer}
use hash_map_storage_service.Threads.{Write, Reach, here, accept, next, round, memory}
use hash_map_storage_service.Threads.Split.{Wait}
use hash_map_storage_service.Threads.Rounds.{Runs, Reach-Runs}
use hash_map_storage_service.Threads.Writes.{Accepted, started_with, Reach-IsServer, Reach-write}
use hash_map_storage_service.Tests.ListTests.{b}
use hash_map_storage_service.Tests.TableTests.{hashes}
use hash_map_storage_service.Tests.SkeletonTests.{waiting, delete_b}

empty_del : table_del (some (new_table 1)) (some b) ≡ ret (minus_one, some (new_table 1))
unfolding view find
empty_del =
    let (is_table, _) = (table_create_lem.1 1 (omega arith)).1 in
    table_del-absent (new_table 1) (empty_rows 1) b 0 is_table hashes.1 refl

key_there : read_text waiting.store.blocks (some 0) ≡ ret (some b)
unfolding read_text c_string
key_there = refl

no_tail : fifo_create.tail ≡ none
unfolding fifo_create
no_tail = refl

abbrev Done : Server → Type 0
Done s =
    (s' : Server) × (s'' : Server) × (invoke none s (some delete_b)
      ≡ ret (pos 0, s', some (answer_of del s.last_assigned delete_b)))
    × (process_task s' ≡ ret s'')
    × (s''.table ≡ some (new_table 1))
    × (s''.op_count ≡ s.op_count + 1)
    × IsQueue s''.queue [] none

done : Done (started_with 1 waiting)
done = subst Done (sym (ap (λ r. r.1) (new_start 1 waiting (omega arith)))) (
    invoke-process_task none (some none) (new_server 1 waiting) (new_table 1) del delete_b
      (new_server-IsServer 1 waiting) no_tail refl refl b 0 [] (minus_one, some (new_table 1))
      key_there empty_del)

-- The delete, and its round.
abbrev writes : List Write
writes = (del, delete_b) ∷ []

abbrev reached : Reach (started_with 1 waiting) writes done.1
reached = next (accept here none del delete_b (pos 0) _ refl refl done.2) (round done.3)

Reach-IsServer_example :
    (t : TableT) × (cs : Cells) × (stop : Link) × IsServer done.1 t cs stop
    × ((done.1).queue.size ≡ length cs)
    × ((done.1).last_assigned ≡ length writes)
    × (finished : List Write) × (left : List Write) × (writes ≡ finished ++ left)
    × (length finished ≡ (done.1).op_count)
    × Wait left cs
Reach-IsServer_example = Reach-IsServer 1 waiting (omega arith) reached

Reach-write_example :
    Accepted none done.1 del delete_b
    ⊎ (((done.1).queue.size ≡ 1) × (invoke none done.1 (some delete_b) ≡ fault))
Reach-write_example = Reach-write 1 waiting none del delete_b (omega arith) reached refl refl

-- the server when the next message came
abbrev later : Server
later = record done.1 { store = waiting.store }

Reach-IsTable_example :
    (t : TableT) × (xss : List ListCells.Cells) × ((done.1).table ≡ some t) × IsTable t xss
Reach-IsTable_example = Reach-IsTable 1 waiting (omega arith) reached

Reach-invoke_example :
    (t : TableT) × (xss : List ListCells.Cells) × (later.table ≡ some t)
    × IsTable t xss
    × (invoke none later (some (asking Opcode.size delete_b))
        ≡ ret (pos 0, later, some (size_of t delete_b)))
    × (invoke none later (some (asking Opcode.getkeys delete_b))
        ≡ ret (pos 0, later, some (keys_in t xss delete_b)))
    × (invoke none later (some (asking Opcode.get delete_b))
        ≡ (dup_found (view b xss) >>= λ d. ret (reply_value later delete_b d)))
Reach-invoke_example =
    Reach-invoke 1 waiting none delete_b b (omega arith)
      (next reached (memory done.1 waiting.store)) (done.6.count) refl key_there

-- The first delete, which waits.
abbrev Waiting : Server → Type 0
Waiting s =
    (s' : Server) × (invoke none s (some delete_b)
      ≡ ret (pos 0, s', some (answer_of del s.last_assigned delete_b)))
    × (s'.queue.size ≡ 1)

delete_waits : Waiting (started_with 1 waiting)
delete_waits =
    let (s', run, put_off) =
      invoke-Enqueued none (some none) (new_server 1 waiting) (new_table 1) [] del delete_b
        (new_server-IsServer 1 waiting) (inl no_tail) refl refl in
    subst Waiting (sym (ap (λ r. r.1) (new_start 1 waiting (omega arith))))
      (s', run, put_off.is_server.is_queue.count)

Reach-Runs_example :
    (finished : List Write) × (w : Write) × (left : List Write) × (writes ≡ finished ++ (w ∷ left))
    × (length finished ≡ (delete_waits.0).op_count)
    × Runs delete_waits.0 w
Reach-Runs_example =
    Reach-Runs 1 waiting (omega arith)
      (accept here none del delete_b (pos 0) _ refl refl delete_waits.1)
      (omega (arith, delete_waits.2))
