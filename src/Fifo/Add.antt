-- ===== src/Fifo/Add.antt =====
-- `fifo_add` of source/fifo.c, with the allocation of the task that it adds.
use hash_map_storage_service.Prelude.{
  ℕ, suc, ◌+◌, ◌<◌, ◌≡◌, refl, ◌∙◌, ap, sym, ◌⊎◌, inl, inr, true, false, Option, none, some, [],
  ◌∷◌, ◌++◌, length-append, arith, ◌==◌,
}
use hash_map_storage_service.Prelude.Int.{pos}
use hash_map_storage_service.Prelude.Outcome.{ret}
use hash_map_storage_service.Fifo.{
  Ptr, Link, Task, Tasks, Fifo, write, set_proximo, new_task, link_task, fifo_add,
}
use hash_map_storage_service.Fifo.Chain.{
  Cell, Cells, has, at_link, Chain, last, IsQueue, TailOk, Chain-write, has-Below, Below-mono,
  Below-snoc, has-snoc, last-snoc, has-last,
}

abbrev pub cell : ℕ → Task → Cell
cell a t = record { address = a; task = t }

-- Linking the task a behind the last task t.
link-Chain :
    (stop : Link) (task : Task) (junk : Link) (h : Tasks) (a t : ℕ) (p : Link) (cs : Cells)
    → Chain stop h p cs
    → last cs ≡ some t
    → has a cs ≡ false
    → h a ≡ some (at_link task junk)
    → (u : Task) × (h t ≡ some u)
      × Chain junk (write h t (some (at_link u (some (some a))))) p (cs ++ cell a task ∷ [])
unfolding write
link-Chain stop task junk h a t p [] c e out new = ground arith
link-Chain stop task junk h a t p (x ∷ []) (c, (q, holds, _, d)) e out new =
    let same : t ≡ x.address = ground arith in
    (
      at_link x.task q,
      rw same holds,
      (c, (some (some a), ground arith, ground arith, (refl, (junk, ground arith, refl, refl)))),
    )
link-Chain stop task junk h a t p (x ∷ y ∷ cs) (c, (q, holds, apart, d)) e out new =
    let there : has t (y ∷ cs) ≡ true = has-last t (y ∷ cs) e in
    let (u, at_t, chain) = link-Chain stop task junk h a t q (y ∷ cs) d e (ground arith) new in
    (
      u,
      at_t,
      (c, (q, ground arith, has-snoc x.address (y ∷ cs) (cell a task) ∙ ground arith, chain)),
    )

-- A queue with one more task, the last of which is at the tail.
pub record Added (q : Fifo) (cs : Cells) (task : Task) (junk : Link) (r : Fifo) : Type 0 where
  pub added : fifo_add (new_task junk task q) q.fresh ≡ ret (pos 0, r)
  pub is_queue : IsQueue r (cs ++ cell q.fresh task ∷ []) junk
  pub fresh : r.fresh ≡ suc q.fresh

-- An empty queue takes a task whatever its tail is, and keeps that tail.
pub fifo_add-first :
    (stop : Link) (task : Task) (junk : Link) (q : Fifo)
    → IsQueue q [] stop
    → (r : Fifo) × Added q [] task junk r
      × (r.tail ≡ q.tail)
      × ((b : ℕ) → b < q.fresh → r.tasks b ≡ q.tasks b)
      × (r.head ≡ some (some q.fresh))
unfolding fifo_add new_task write
fifo_add-first stop task junk q is =
    let empty : (q.size == 0) ≡ true = ground (arith, is.count) in
    (
      record q {
        tasks = write q.tasks q.fresh (some (at_link task junk));
        fresh = suc q.fresh;
        head = some (some q.fresh);
        size = q.size + 1;
      },
      record {
        added = rw empty refl;
        is_queue = record {
          chain = (refl, (junk, ground arith, refl, refl));
          count = omega (arith, is.count);
          below = omega arith;
        };
        fresh = refl;
      },
      refl,
      λ b lt. ground arith,
      refl,
    )

last-cons : (x : Cell) (cs : Cells) → (t : ℕ) × (last (x ∷ cs) ≡ some t)
last-cons x [] = (x.address, refl)
last-cons x (y ∷ cs) = last-cons y cs

tail_or_head :
    (x : Cell) (cs : Cells) (tail : Ptr) (t : ℕ)
    → last (x ∷ cs) ≡ some t
    → TailOk tail (x ∷ cs)
    → (tail ≡ some t) ⊎ ((tail ≡ none) × (x.address ≡ t))
tail_or_head x cs tail t e (inl at_last) = inl (at_last ∙ e)
tail_or_head x [] tail t e (inr (short, no_tail)) = inr (no_tail, ground arith)
tail_or_head x (y ∷ cs) tail t e (inr (short, no_tail)) = absurd (omega arith)

link_task-behind :
    (a h t : ℕ) (tail : Ptr) (q : Fifo) (tasks : Tasks)
    → q.head ≡ some (some h)
    → (tail ≡ some t) ⊎ ((tail ≡ none) × (h ≡ t))
    → set_proximo q.tasks (some (some t)) a ≡ ret tasks
    → link_task a tail q ≡ ret (pos 0, record q { tasks = tasks; tail = some a; size = q.size + 1 })
unfolding link_task
link_task-behind a h t tail q tasks e (inl at_tail) run = rw at_tail (rw run refl)
link_task-behind a h t tail q tasks e (inr (no_tail, same)) run =
    let run' : set_proximo q.tasks q.head a ≡ ret tasks =
      ap (λ p. set_proximo q.tasks p a) (e ∙ ap (λ b. some (some b)) same) ∙ run in
    rw no_tail (rw run' refl)

-- With a sound tail, a task goes to the end of a queue that is not empty.
fifo_add-behind :
    (stop : Link) (task : Task) (junk : Link) (q : Fifo) (x : Cell) (cs : Cells)
    → IsQueue q (x ∷ cs) stop
    → TailOk q.tail (x ∷ cs)
    → (r : Fifo) × Added q (x ∷ cs) task junk r × TailOk r.tail (x ∷ cs ++ cell q.fresh task ∷ [])
unfolding fifo_add new_task
fifo_add-behind stop task junk q x cs is ok =
    let new = write q.tasks q.fresh (some (at_link task junk)) in
    let unused = has-Below q.fresh q.fresh (x ∷ cs) is.below (omega arith) in
    let (t, at_t) = last-cons x cs in
    let (u, holds, chain) =
      link-Chain stop task junk new q.fresh t q.head (x ∷ cs)
        (Chain-write stop q.tasks q.fresh _ q.head (x ∷ cs) is.chain unused) at_t unused
        (self q.tasks q.fresh (some (at_link task junk))) in
    let filled : (q.size == 0) ≡ false = ground (arith, is.count) in
    let linked = set_at new t u q.fresh holds in
    (
      record q {
        tasks = write new t (some (at_link u (some (some q.fresh))));
        fresh = suc q.fresh;
        tail = some q.fresh;
        size = q.size + 1;
      },
      record {
        added = rw filled (
            link_task-behind q.fresh x.address t q.tail
              (record q { tasks = new; fresh = suc q.fresh }) _ is.chain.0
              (tail_or_head x cs q.tail t at_t ok) linked);
        is_queue = record {
          chain = chain;
          count = omega (arith, is.count, length-append (x ∷ cs) (cell q.fresh task ∷ []));
          below =
              Below-snoc (suc q.fresh) (x ∷ cs) (cell q.fresh task)
                (Below-mono q.fresh (suc q.fresh) (x ∷ cs) (omega arith) is.below) (omega arith);
        };
        fresh = refl;
      },
      inl (sym (last-snoc (x ∷ cs) (cell q.fresh task))),
    )
  where
    self : (h : Tasks) (a : ℕ) (t : Option Task) → write h a t a ≡ t
    self h a t = unfold write in ground arith

    set_at :
        (h : Tasks) (t : ℕ) (u : Task) (a : ℕ)
        → h t ≡ some u
        → set_proximo h (some (some t)) a ≡ ret (write h t (some (at_link u (some (some a)))))
    set_at h t u a e = unfold set_proximo in rw e refl

-- `fifo_add` of a new task to a queue with a sound tail puts it at the end, returns 0 and leaves
-- a sound tail, whatever the memory of the task held before.
pub fifo_add-append :
    (stop : Link) (task : Task) (junk : Link) (q : Fifo) (cs : Cells)
    → IsQueue q cs stop
    → TailOk q.tail cs
    → (r : Fifo) × Added q cs task junk r × TailOk r.tail (cs ++ cell q.fresh task ∷ [])
fifo_add-append stop task junk q [] is ok =
    let (r, added, kept, _, _) = fifo_add-first stop task junk q is in
    let empty : q.tail ≡ none = ground arith in (r, added, inr (omega arith, kept ∙ empty))
fifo_add-append stop task junk q (x ∷ cs) is ok = fifo_add-behind stop task junk q x cs is ok
