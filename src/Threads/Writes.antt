-- ===== src/Threads/Writes.antt =====
-- The counters and the writes of source/table_skel.c in every order of the steps of its threads.
use hash_map_storage_service.Prelude.{
  ℕ, ◌+◌, ◌<◌, ◌≡◌, refl, ◌∙◌, ap, sym, ◌⊎◌, inl, inr, false, none, some, [], ◌∷◌, length,
  length-append, List, ◌++◌, arith,
}
use mathlib.Core.Path.{subst}
use hash_map_storage_service.Prelude.Int.{pos}
use hash_map_storage_service.Prelude.Outcome.{ret, fault}
use hash_map_storage_service.Table.{TableT}
use hash_map_storage_service.Table.Sound.{IsSound}
use hash_map_storage_service.NodeList.{ListT, list_create}
use hash_map_storage_service.Table.Create.{
  new_table, empty_rows, row-empty, get_elem?-replicate, table_create_lem,
}
use hash_map_storage_service.Fifo.{Link, Op, fifo_create}
use hash_map_storage_service.Fifo.Chain.{Cells, TailOk}
use hash_map_storage_service.Fifo.Waiting.{IsStale, fifo_add-IsStale_fault, fifo_add-IsStale_first}
use hash_map_storage_service.Message.{Message}
use hash_map_storage_service.Skeleton.{Server, is_refused, task_of, enqueue, invoke}
use hash_map_storage_service.Skeleton.Numbers.{Numbers-length}
use hash_map_storage_service.Skeleton.Enqueue.{
  IsServer, opcode_of, answer_of, invoke-enqueue, invoke-Enqueued,
}
use hash_map_storage_service.Startup.{start_server}
use hash_map_storage_service.Startup.State.{new_start, new_server-IsServer}
use hash_map_storage_service.Threads.{Write, Reach}
use hash_map_storage_service.Threads.Reached.{Inv, Reach-Inv}
use hash_map_storage_service.Threads.Split.{Wait, Wait-length}

-- The server that a start with n lists leaves.
abbrev pub started_with : ℕ → Server → Server
started_with n s = (start_server (pos n) s).1

new_table-IsSound : (n : ℕ) → 0 < n → IsSound (new_table n)
unfolding list_create
new_table-IsSound n lt = record {
  rows = empty_rows n;
  is_table = (table_create_lem.1 n lt).1.0;
  tails = λ i l e.
      rw (row-empty n i) (inl (inl (no_tail l (get_elem?-replicate n i list_create (some l) e))));
}
  where
    no_tail : (l : ListT) → some l ≡ list_create → l.tail ≡ none
    no_tail l e = unfold list_create in ground arith

pub start-Inv : (n : ℕ) (s : Server) → 0 < n → Inv [] (started_with n s)
unfolding fifo_create
start-Inv n s lt = subst (Inv []) (sym (ap (λ r. r.1) (new_start n s lt))) (record {
  cells = [];
  stop = some none;
  table = _;
  is_server = new_server-IsServer n s;
  sound = new_table-IsSound n lt;
  tail = inl (inl refl);
  split = record { done = []; waiting = []; whole = refl; count = refl; wait = tt };
})

-- In every state that steps of the threads reach from a start with at least one list, without a fault
-- and in any order, the deletes and puts that were accepted so far are, in their order, op_count that
-- no longer wait and then those that do: the queue holds exactly one task for each of these, in the same
-- order, with its operation, its key and, for a put, its value and size. The tasks are numbered in order
-- from op_count up to last_assigned, which is the number of writes that were accepted. There is a table.
pub Reach-IsServer :
    {s : Server} {ws : List Write} (n : ℕ) (s₀ : Server)
    → 0 < n
    → Reach (started_with n s₀) ws s
    → (t : TableT) × (cs : Cells) × (stop : Link) × IsServer s t cs stop
      × (s.queue.size ≡ length cs)
      × (s.last_assigned ≡ length ws)
      × (done : List Write) × (waiting : List Write) × (ws ≡ done ++ waiting)
      × (length done ≡ s.op_count)
      × Wait waiting cs
Reach-IsServer {s} {ws} n s₀ lt r =
    let i = Reach-Inv (start-Inv n s₀ lt) r in
    let p = i.split in
    let numbered = Numbers-length s.op_count s.last_assigned i.cells i.is_server.numbers in
    let all : length ws ≡ length p.done + length p.waiting =
      ap length p.whole ∙ length-append p.done p.waiting in
    (
      i.table,
      i.cells,
      i.stop,
      i.is_server,
      i.is_server.is_queue.count,
      omega (arith, numbered, all, p.count, Wait-length p.waiting i.cells p.wait),
      p.done,
      p.waiting,
      p.whole,
      p.count,
      p.wait,
    )

-- What a write that `invoke` does not refuse comes to.
abbrev pub Accepted : Link → Server → Op → Message → Type 0
Accepted junk s op m =
    (s' : Server) × (invoke junk s (some m)
      ≡ ret (pos 0, s', some (answer_of op s.last_assigned m)))
    × (s'.last_assigned ≡ s.last_assigned + 1)

write-cases :
    (junk stop : Link) (s : Server) (t : TableT) (cs : Cells) (op : Op) (m : Message)
    → IsServer s t cs stop
    → TailOk s.queue.tail cs ⊎ IsStale s.queue cs
    → m.opcode ≡ opcode_of op
    → is_refused m ≡ false
    → Accepted junk s op m ⊎ ((s.queue.size ≡ 1) × (invoke junk s (some m) ≡ fault))
unfolding enqueue
write-cases junk stop s t cs op m is (inl ok) e accepted =
    let (s', run, put_off) = invoke-Enqueued junk stop s t cs op m is ok e accepted in
    inl (s', run, put_off.next)
write-cases junk stop s t [] op m is (inr st) e accepted =
    let (q, added, _) =
      fifo_add-IsStale_first stop junk (task_of op s.last_assigned m) s.queue is.is_queue st in
    inl (
      record s { queue = q; last_assigned = s.last_assigned + 1 },
      invoke-enqueue junk s t op m is.table e accepted ∙ rw added.added refl,
      refl,
    )
write-cases junk stop s t (c ∷ []) op m is (inr st) e accepted = inr (
  is.is_queue.count,
  invoke-enqueue junk s t op m is.table e accepted
      ∙ rw
          (fifo_add-IsStale_fault stop junk (task_of op s.last_assigned m) s.queue c is.is_queue st)
          refl,
)
write-cases junk stop s t (c ∷ d ∷ cs) op m is (inr st) e accepted = absurd (omega (arith, st.few))

-- In every state that steps of the threads reach from a start with at least one list, a delete or put that is not refused is accepted with the number
-- last_assigned, or exactly one task waits and `invoke` uses a freed task.
pub Reach-write :
    {s : Server} {ws : List Write} (n : ℕ) (s₀ : Server) (junk : Link) (op : Op) (m : Message)
    → 0 < n
    → Reach (started_with n s₀) ws s
    → m.opcode ≡ opcode_of op
    → is_refused m ≡ false
    → Accepted junk s op m ⊎ ((s.queue.size ≡ 1) × (invoke junk s (some m) ≡ fault))
Reach-write {s} {ws} n s₀ junk op m lt r e accepted =
    let i = Reach-Inv (start-Inv n s₀ lt) r in
    write-cases junk i.stop s i.table i.cells op m i.is_server i.tail e accepted
