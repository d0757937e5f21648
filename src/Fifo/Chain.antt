-- ===== src/Fifo/Chain.antt =====
-- What a queue of source/fifo.c stands for: its tasks in order, each with its address.
use hash_map_storage_service.Prelude.{
  ℕ, ◌≤◌, ◌<◌, ◌≡◌, refl, ◌∙◌, ◌⊎◌, Bool, true, false, ◌||◌, Option, none, some, List, [], ◌∷◌,
  ◌++◌, length, arith, ◌==◌,
}
use hash_map_storage_service.Fifo.{Ptr, Link, Task, Tasks, Fifo, write}

pub record Cell : Type 0 where
  pub address : ℕ
  pub task : Task

abbrev pub Cells : Type 0
Cells = List Cell

abbrev pub has : ℕ → Cells → Bool
has a [] = false
has a (c ∷ cs) = (a == c.address) || has a cs

-- A task in memory has the link q; the others of its fields are those of the cell.
abbrev pub at_link : Task → Link → Task
at_link t q = record t { proximo = q }

-- From p the links lead through tasks at distinct addresses to the link `stop`, which may be NULL or
-- indeterminate.
abbrev pub Chain : Link → Tasks → Link → Cells → Type 0
Chain stop h p [] = p ≡ stop
Chain stop h p (c ∷ cs) =
    (p ≡ some (some c.address))
    × ((q : Link) × (h c.address ≡ some (at_link c.task q))
        × (has c.address cs ≡ false)
        × Chain stop h q cs)

abbrev pub Below : ℕ → Cells → Type 0
Below n [] = Unit
Below n (c ∷ cs) = (c.address < n) × Below n cs

abbrev pub last : Cells → Ptr
last [] = none
last (c ∷ []) = some c.address
last (c ∷ d ∷ cs) = last (d ∷ cs)

pub record IsQueue (q : Fifo) (cs : Cells) (stop : Link) : Type 0 where
  pub chain : Chain stop q.tasks q.head cs
  pub count : q.size ≡ length cs
  pub below : Below q.fresh cs

-- The tail is the last task, but may be NULL for at most one task.
abbrev pub TailOk : Ptr → Cells → Type 0
TailOk t cs = (t ≡ last cs) ⊎ ((length cs ≤ 1) × (t ≡ none))

pub Chain-frame :
    (stop : Link) (h g : Tasks) (p : Link) (cs : Cells)
    → Chain stop h p cs
    → ((a : ℕ) → has a cs ≡ true → g a ≡ h a)
    → Chain stop g p cs
Chain-frame stop h g p [] c same = c
Chain-frame stop h g p (x ∷ cs) (e, (q, holds, out, c)) same = (
  e,
  (
    q,
    same x.address (ground arith) ∙ holds,
    out,
    Chain-frame stop h g q cs c (λ a m. same a (ground arith)),
  ),
)

pub Chain-write :
    (stop : Link) (h : Tasks) (a : ℕ) (t : Option Task) (p : Link) (cs : Cells)
    → Chain stop h p cs
    → has a cs ≡ false
    → Chain stop (write h a t) p cs
unfolding write
Chain-write stop h a t p cs c out = Chain-frame stop h _ p cs c (λ b m. ground arith)

pub has-Below : (n a : ℕ) (cs : Cells) → Below n cs → n ≤ a → has a cs ≡ false
has-Below n a [] b le = refl
has-Below n a (x ∷ cs) b le = ground (arith, has-Below n a cs)

pub Below-mono : (n m : ℕ) (cs : Cells) → n ≤ m → Below n cs → Below m cs
Below-mono n m [] le b = tt
Below-mono n m (x ∷ cs) le b = (omega arith, Below-mono n m cs le b.1)

pub Below-snoc :
    (n : ℕ) (cs : Cells) (c : Cell) → Below n cs → c.address < n → Below n (cs ++ c ∷ [])
Below-snoc n [] c b h = (h, tt)
Below-snoc n (x ∷ cs) c b h = (b.0, Below-snoc n cs c b.1 h)

pub has-snoc :
    (a : ℕ) (cs : Cells) (c : Cell) → has a (cs ++ c ∷ []) ≡ (has a cs || (a == c.address))
has-snoc a [] c = ground arith
has-snoc a (x ∷ cs) c = ground (arith, has-snoc a cs c)

pub last-snoc : (cs : Cells) (c : Cell) → last (cs ++ c ∷ []) ≡ some c.address
last-snoc [] c = refl
last-snoc (x ∷ []) c = refl
last-snoc (x ∷ y ∷ cs) c = last-snoc (y ∷ cs) c

pub has-last : (a : ℕ) (cs : Cells) → last cs ≡ some a → has a cs ≡ true
has-last a [] e = ground arith
has-last a (x ∷ []) e = ground arith
has-last a (x ∷ y ∷ cs) e = ground (arith, has-last a (y ∷ cs))
