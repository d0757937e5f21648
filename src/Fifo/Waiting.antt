-- ===== src/Fifo/Waiting.antt =====
-- A queue of source/fifo.c between any calls of `fifo_add` and `pop`: its tail may be a task that was
-- freed.
use hash_map_storage_service.Prelude.{
  ℕ, ◌≤◌, ◌<◌, ◌≡◌, ◌∙◌, ap, sym, ◌⊎◌, inl, inr, none, some, [], ◌∷◌, ◌++◌, length, arith,
}
use mathlib.Core.Path.{subst}
use hash_map_storage_service.Prelude.Int.{ℤ}
use hash_map_storage_service.Prelude.Outcome.{Outcome, ret, fault, out_of_fuel}
use hash_map_storage_service.Fifo.{free_task, Link, Task, Fifo, write, new_task, fifo_add}
use hash_map_storage_service.Fifo.Chain.{Cell, Cells, IsQueue, TailOk}
use hash_map_storage_service.Fifo.Drained.{fifo_add-freed}
use hash_map_storage_service.Fifo.Pop.{Popped}
use hash_map_storage_service.Fifo.Add.{cell, Added, fifo_add-first, fifo_add-append}

-- At most one task waits, and the tail is a task that was freed.
pub record IsStale (q : Fifo) (cs : Cells) : Type 0 where
  pub address : ℕ
  pub tail : q.tail ≡ some address
  pub gone : q.tasks address ≡ none
  pub below : address < q.fresh
  pub few : length cs ≤ 1

-- The queue that a call of `fifo_add` leaves.
queue_of : Fifo → Outcome (ℤ × Fifo) → Fifo
queue_of q (ret (r, q')) = q'
queue_of q fault = q
queue_of q out_of_fuel = q

same_queue :
    {x y : ℤ} (q r r' : Fifo) (o : Outcome (ℤ × Fifo)) → o ≡ ret (x, r) → o ≡ ret (y, r') → r ≡ r'
unfolding queue_of
same_queue q r r' o e e' = ap (queue_of q) (sym e ∙ e')

-- With a freed tail, a task can be added to an empty queue only.
pub fifo_add-IsStale_fault :
    (stop junk : Link) (task : Task) (q : Fifo) (c : Cell)
    → IsQueue q (c ∷ []) stop
    → IsStale q (c ∷ [])
    → fifo_add (new_task junk task q) q.fresh ≡ fault
fifo_add-IsStale_fault stop junk task q c is st =
    fifo_add-freed task junk q st.address (ground (arith, is.count)) st.tail st.gone st.below

pub fifo_add-IsStale_first :
    (stop junk : Link) (task : Task) (q : Fifo)
    → IsQueue q [] stop
    → IsStale q []
    → (r : Fifo) × Added q [] task junk r × IsStale r (cell q.fresh task ∷ [])
fifo_add-IsStale_first stop junk task q is st =
    let (r, added, kept, same, _) = fifo_add-first stop task junk q is in
    (
      r,
      added,
      record {
        address = st.address;
        tail = kept ∙ st.tail;
        gone = same st.address st.below ∙ st.gone;
        below = omega (arith, added.fresh, st.below);
        few = omega arith;
      },
    )

-- `fifo_add`, if it returns, puts the task at the end, and leaves a sound or a freed tail.
pub fifo_add-Added :
    {x : ℤ} (stop junk : Link) (task : Task) (q q' : Fifo) (cs : Cells)
    → IsQueue q cs stop
    → TailOk q.tail cs ⊎ IsStale q cs
    → fifo_add (new_task junk task q) q.fresh ≡ ret (x, q')
    → IsQueue q' (cs ++ (cell q.fresh task ∷ [])) junk
      × (TailOk q'.tail (cs ++ (cell q.fresh task ∷ []))
          ⊎ IsStale q' (cs ++ (cell q.fresh task ∷ [])))
fifo_add-Added {x} stop junk task q q' cs is (inl ok) e =
    let (r, added, tail) = fifo_add-append stop task junk q cs is ok in
    let same = same_queue q r q' _ added.added e in
    let cs' = cs ++ (cell q.fresh task ∷ []) in
    (
      subst (λ y. IsQueue y cs' junk) same added.is_queue,
      inl (subst (λ y. TailOk y.tail cs') same tail),
    )
fifo_add-Added {x} stop junk task q q' [] is (inr st) e =
    let (r, added, stale) = fifo_add-IsStale_first stop junk task q is st in
    let same = same_queue q r q' _ added.added e in
    let cs' = cell q.fresh task ∷ [] in
    (
      subst (λ y. IsQueue y cs' junk) same added.is_queue,
      inr (subst (λ y. IsStale y cs') same stale),
    )
fifo_add-Added {x} stop junk task q q' (c ∷ []) is (inr st) e =
    absurd (impossible (sym (fifo_add-IsStale_fault stop junk task q c is st) ∙ e))
  where
    impossible : {a : ℤ × Fifo} → fault ≡ ret a → ⊥
    impossible h = ground arith
fifo_add-Added {x} stop junk task q q' (c ∷ d ∷ cs) is (inr st) e = absurd (omega (arith, st.few))

-- Taking out and freeing the first task keeps a sound tail, or leaves a freed one.
pub pop-tail :
    (stop : Link) (q r : Fifo) (c : Cell) (cs : Cells)
    → IsQueue q (c ∷ cs) stop
    → Popped q c cs stop r
    → TailOk q.tail (c ∷ cs) ⊎ IsStale q (c ∷ cs)
    → TailOk (free_task r c.address).tail cs ⊎ IsStale (free_task r c.address) cs
unfolding free_task write
pop-tail stop q r c [] is p (inl (inl e)) = inr (record {
  address = c.address;
  tail = p.tail ∙ e;
  gone = ground arith;
  below = omega (arith, p.fresh, is.below.0);
  few = omega arith;
})
pop-tail stop q r c [] is p (inl (inr (_, e))) = inl (inl (p.tail ∙ e))
pop-tail stop q r c (d ∷ cs) is p (inl ok) = inl (p.tail_ok (inl (λ e. ground arith)) ok)
pop-tail stop q r c [] is p (inr st) =
    let kept : r.tasks st.address ≡ none = ap (λ h. h st.address) p.tasks ∙ st.gone in
    inr (record {
      address = st.address;
      tail = p.tail ∙ st.tail;
      gone = ground (arith, kept);
      below = omega (arith, p.fresh, st.below);
      few = omega arith;
    })
pop-tail stop q r c (d ∷ cs) is p (inr st) = absurd (omega (arith, st.few))
