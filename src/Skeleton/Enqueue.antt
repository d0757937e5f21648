-- ===== src/Skeleton/Enqueue.antt =====
-- Deletes and puts in `invoke` of source/table_skel.c.
use hash_map_storage_service.Prelude.{ℕ, ◌+◌, ◌≡◌, refl, ◌∙◌, ap, false, some, [], ◌∷◌, ◌++◌}
use hash_map_storage_service.Prelude.Int.{ℤ, pos, ◌+ℤ◌}
use hash_map_storage_service.Prelude.Outcome.{ret}
use hash_map_storage_service.Table.{TableT}
use hash_map_storage_service.Fifo.{Link, Op, del, put}
use hash_map_storage_service.Fifo.Chain.{Cells, IsQueue, TailOk}
use hash_map_storage_service.Fifo.Add.{cell, fifo_add-append}
use hash_map_storage_service.Message.{Message}
use hash_map_storage_service.Message.Opcode
use hash_map_storage_service.Message.Content
use hash_map_storage_service.Skeleton.{
  Server, is_refused, task_of, enqueue, dispatch, invoke_on, invoke,
}
use hash_map_storage_service.Skeleton.Numbers.{Numbers, Numbers-snoc}

-- The opcodes of the two writing operations.
abbrev pub opcode_of : Op → ℤ
opcode_of del = Opcode.del
opcode_of put = Opcode.put

-- The server whose queue has the tasks cs, numbered from op_count up to last_assigned.
pub record IsServer (s : Server) (t : TableT) (cs : Cells) (stop : Link) : Type 0 where
  pub table : s.table ≡ some t
  pub is_queue : IsQueue s.queue cs stop
  pub numbers : Numbers s.op_count s.last_assigned cs

-- The server after a write was put off.
pub record Enqueued (s : Server) (t : TableT) (cs : Cells) (junk : Link) (op : Op) (m : Message)
    (s' : Server) : Type 0 where
  pub is_server : IsServer s' t (cs ++ cell s.queue.fresh (task_of op s.last_assigned m) ∷ []) junk
  pub tail : TailOk s'.queue.tail (cs ++ cell s.queue.fresh (task_of op s.last_assigned m) ∷ [])
  pub store : s'.store ≡ s.store
  pub op_count : s'.op_count ≡ s.op_count
  pub next : s'.last_assigned ≡ s.last_assigned + 1

abbrev pub answer_of : Op → ℕ → Message → Message
answer_of op n m = record m {
  opcode = opcode_of op +ℤ pos 1;
  c_type = Content.none;
  data_size = pos n;
}

dispatch-enqueue :
    (junk : Link) (s : Server) (m : Message) (op : Op)
    → m.opcode ≡ opcode_of op
    → dispatch junk s m ≡ enqueue junk op (opcode_of op) s m
unfolding dispatch
dispatch-enqueue junk s m del e = rw e refl
dispatch-enqueue junk s m put e = rw e refl

pub invoke-enqueue :
    (junk : Link) (s : Server) (t : TableT) (op : Op) (m : Message)
    → s.table ≡ some t
    → m.opcode ≡ opcode_of op
    → is_refused m ≡ false
    → invoke junk s (some m) ≡ enqueue junk op (opcode_of op) s m
unfolding invoke invoke_on
invoke-enqueue junk s t op m table e accepted =
    ap (λ x. invoke_on junk s x (some m)) table ∙ rw (accepted, dispatch-enqueue junk s m op e) refl

-- A delete or put that `invoke` does not refuse, in a server whose queue has a sound tail, goes to
-- the end of the queue with the next number. The call returns 0 and answers with that number, and
-- the tasks keep numbers without a gap.
pub invoke-Enqueued :
    (junk stop : Link) (s : Server) (t : TableT) (cs : Cells) (op : Op) (m : Message)
    → IsServer s t cs stop
    → TailOk s.queue.tail cs
    → m.opcode ≡ opcode_of op
    → is_refused m ≡ false
    → (s' : Server) × (invoke junk s (some m)
        ≡ ret (pos 0, s', some (answer_of op s.last_assigned m)))
      × Enqueued s t cs junk op m s'
unfolding enqueue
invoke-Enqueued junk stop s t cs op m is ok e accepted =
    let task = task_of op s.last_assigned m in
    let (q, a, tail) = fifo_add-append stop task junk s.queue cs is.is_queue ok in
    (
      record s { queue = q; last_assigned = s.last_assigned + 1 },
      invoke-enqueue junk s t op m is.table e accepted ∙ rw a.added refl,
      record {
        is_server = record {
          table = is.table;
          is_queue = a.is_queue;
          numbers =
              Numbers-snoc s.op_count s.last_assigned cs (cell s.queue.fresh task) is.numbers
                (number op);
        };
        tail = tail;
        store = refl;
        op_count = refl;
        next = refl;
      },
    )
  where
    number : (op : Op) → (task_of op s.last_assigned m).op_n ≡ s.last_assigned
    number del = unfold task_of in refl
    number put = unfold task_of in refl
