-- ===== src/Threads/Split.antt =====
-- The writes that source/table_skel.c accepted, and the tasks of its queue.
use hash_map_storage_service.Prelude.{
  ℕ, suc, ◌+◌, ◌≡◌, refl, ◌∙◌, sym, [], ◌∷◌, ◌++◌, arith, List, length, length-append, append_assoc,
  ap,
}
use hash_map_storage_service.Fifo.{Task, Op, del, put}
use hash_map_storage_service.Fifo.Chain.{Cell, Cells}
use hash_map_storage_service.Message.{Message}
use hash_map_storage_service.Skeleton.{task_of}
use hash_map_storage_service.Threads.{Write}

-- The task carries the write.
abbrev pub IsFor : Write → Task → Type 0
IsFor (del, m) t = (t.op ≡ del) × (t.key ≡ m.key)
IsFor (put, m) t = (t.op ≡ put) × (t.key ≡ m.key) × (t.bytes ≡ m.bytes) × (t.datasize ≡ m.data_size)

-- The tasks carry the writes, one for one.
abbrev pub Wait : List Write → Cells → Type 0
Wait [] [] = Unit
Wait [] (c ∷ cs) = ⊥
Wait (w ∷ ws) [] = ⊥
Wait (w ∷ ws) (c ∷ cs) = IsFor w c.task × Wait ws cs

pub Wait-length : (ws : List Write) (cs : Cells) → Wait ws cs → length ws ≡ length cs
Wait-length [] [] h = refl
Wait-length [] (c ∷ cs) h = absurd h
Wait-length (w ∷ ws) [] h = absurd h
Wait-length (w ∷ ws) (c ∷ cs) h = ap suc (Wait-length ws cs h.1)

-- Of the writes, the first op_count are done, and the others wait.
pub record Split (op_count : ℕ) (cs : Cells) (ws : List Write) : Type 0 where
  pub done : List Write
  pub waiting : List Write
  pub whole : ws ≡ done ++ waiting
  pub count : length done ≡ op_count
  pub wait : Wait waiting cs

Wait-snoc :
    (ws : List Write) (cs : Cells) (w : Write) (c : Cell)
    → Wait ws cs
    → IsFor w c.task
    → Wait (ws ++ (w ∷ [])) (cs ++ (c ∷ []))
Wait-snoc [] [] w c h e = (e, tt)
Wait-snoc [] (x ∷ cs) w c h e = absurd h
Wait-snoc (v ∷ ws) [] w c h e = absurd h
Wait-snoc (v ∷ ws) (x ∷ cs) w c h e = (h.0, Wait-snoc ws cs w c h.1 e)

pub task_of-IsFor : (op : Op) (n : ℕ) (m : Message) → IsFor (op, m) (task_of op n m)
unfolding task_of
task_of-IsFor del n m = (refl, refl)
task_of-IsFor put n m = (refl, refl, refl, refl)

pub Split-snoc :
    {n : ℕ} {cs : Cells} {ws : List Write} (w : Write) (c : Cell)
    → Split n cs ws
    → IsFor w c.task
    → Split n (cs ++ (c ∷ [])) (ws ++ (w ∷ []))
Split-snoc {n} {cs} {ws} w c p e = record {
  done = p.done;
  waiting = p.waiting ++ (w ∷ []);
  whole = ap (λ x. x ++ (w ∷ [])) p.whole ∙ append_assoc p.done p.waiting (w ∷ []);
  count = p.count;
  wait = Wait-snoc p.waiting cs w c p.wait e;
}

-- The first write that waits is done.
pub Split-next :
    {n : ℕ} {c : Cell} {cs : Cells} {ws : List Write} → Split n (c ∷ cs) ws → Split (n + 1) cs ws
Split-next {n} {c} {cs} {ws} p = at_waiting p.waiting p.whole p.wait
  where
    at_waiting : (vs : List Write) → ws ≡ p.done ++ vs → Wait vs (c ∷ cs) → Split (n + 1) cs ws
    at_waiting [] whole h = absurd h
    at_waiting (v ∷ vs) whole h = record {
      done = p.done ++ (v ∷ []);
      waiting = vs;
      whole = whole ∙ sym (append_assoc p.done (v ∷ []) vs);
      count = omega (arith, length-append p.done (v ∷ []), p.count);
      wait = h.1;
    }
