-- ===== src/NodeList/Append.antt =====
-- `list_add` of source/list.c: a new key is appended, or the node is linked behind
-- a freed one.
use hash_map_storage_service.Prelude.{
  ℕ, suc, ◌+◌, ◌<◌, ◌≡◌, refl, inl, inr, Option, none, some, [], ◌∷◌, ◌++◌, arith, sym, ◌⊎◌, true,
  false, ap, ◌∙◌, ◌≢◌,
}
use hash_map_storage_service.Prelude.Int.{pos}
use hash_map_storage_service.Prelude.Outcome.{ret, fault, ◌>>=◌}
use hash_map_storage_service.Prelude.Text.{Text}
use hash_map_storage_service.Data.{Data}
use hash_map_storage_service.Entry.{entry}
use hash_map_storage_service.NodeList.{
  Ptr, Heap, Node, node, ListT, write, set_proximo, alloc_node, link_node, list_add,
}
use hash_map_storage_service.NodeList.Cells.{
  Cells, Cell, cell, Chain, IsList, TailOk, has, has_key, last,
}
use hash_map_storage_service.NodeList.Frame.{Chain-write, has-Below, Below-mono, find-none}
use hash_map_storage_service.NodeList.Shape
use hash_map_storage_service.NodeList.Get.{list_get-find}

-- Linking the node a behind the last node t.
link-Chain :
    (k : Text) (v : Option Data) (h : Heap) (a t : ℕ) (p : Ptr) (xs : Cells)
    → Chain h p xs
    → last xs ≡ some t
    → has a xs ≡ false
    → h a ≡ some (node (entry (some k) v) none)
    → (n : Node) × (h t ≡ some n)
      × Chain (write h t (some (node n.entrada (some a)))) p (xs ++ cell a k v ∷ [])
unfolding write
link-Chain k v h a t p [] c e out new = ground arith
link-Chain k v h a t p (x ∷ []) (c, (q, holds, _, d)) e out new =
    let same : t ≡ x.address = ground arith in
    (
      node (entry (some x.key) x.value) q,
      rw same holds,
      (c, (some a, ground arith, ground arith, (refl, (none, ground arith, refl, refl)))),
    )
link-Chain k v h a t p (x ∷ y ∷ xs) (c, (q, holds, apart, d)) e out new =
    let there : has t (y ∷ xs) ≡ true = Shape.has-last t (y ∷ xs) e in
    let (n, at_t, chain) = link-Chain k v h a t q (y ∷ xs) d e (ground arith) new in
    (
      n,
      at_t,
      (c, (q, ground arith, Shape.has-snoc x.address (y ∷ xs) (cell a k v) ∙ ground arith, chain)),
    )

module _ (k : Text) (v : Option Data) (l : ListT) (xs : Cells) (is : IsList l xs) where
  abbrev new_cell : Cell
  new_cell = cell l.fresh k v

  abbrev new_heap : Heap
  new_heap = write l.heap l.fresh (some (node (entry (some k) v) none))

  grown : Heap → Ptr → Ptr → ListT
  grown heap head tail = record {
    heap = heap;
    fresh = suc l.fresh;
    head = head;
    tail = tail;
    size = l.size + 1;
  }

  unused : has l.fresh xs ≡ false
  unused = has-Below l.fresh l.fresh xs is.below (omega arith)

  grown-IsList :
      (heap : Heap) (head tail : Ptr)
      → Chain heap head (xs ++ new_cell ∷ [])
      → has_key k xs ≡ false
      → IsList (grown heap head tail) (xs ++ new_cell ∷ [])
  unfolding grown
  grown-IsList heap head tail c h = record {
    chain = c;
    count = omega (arith, is.count, Shape.length-snoc xs new_cell);
    below =
        Shape.Below-snoc (suc l.fresh) xs new_cell
          (Below-mono l.fresh (suc l.fresh) xs (omega arith) is.below) (omega arith);
    room = omega (arith, is.room, Shape.length-snoc xs new_cell);
    distinct = Shape.Distinct-snoc xs l.fresh k v is.distinct h;
  }

  -- `list_get` finds nothing, so the new node is linked.
  list_add-absent :
      has_key k xs ≡ false
      → list_add (some l) (some (entry (some k) v)) ≡ (
          link_node l.fresh l.head l.tail (alloc_node (entry (some k) v) l) >>= λ m.
          ret (pos 0, some m))
  unfolding list_add
  list_add-absent h = rw (list_get-find l xs k is, find-none k xs h) refl

  module _ (absent : has_key k xs ≡ false) where
    -- Behind a last node: the tail, or the head of a list whose tail was never set.
    linked :
        (t : ℕ)
        → last xs ≡ some t
        → (heap : Heap) × (set_proximo new_heap (some t) (some l.fresh) ≡ ret heap)
          × Chain heap l.head (xs ++ new_cell ∷ [])
    unfolding set_proximo write
    linked t e =
        let (n, at_t, chain) =
          link-Chain k v new_heap l.fresh t l.head xs
            (Chain-write l.heap l.fresh _ l.head xs is.chain unused) e unused (ground arith) in
        (write new_heap t (some (node n.entrada (some l.fresh))), rw at_t refl, chain)

last-cons : (x : Cell) (xs : Cells) → (t : ℕ) × (last (x ∷ xs) ≡ some t)
last-cons x [] = (x.address, refl)
last-cons x (y ∷ xs) = last-cons y xs

-- `list_add` of a new key k to the list l gave the list m.
pub record Appended (l : ListT) (xs : Cells) (k : Text) (v : Option Data) (m : ListT) : Type 0 where
  pub added : list_add (some l) (some (entry (some k) v)) ≡ ret (pos 0, some m)
  pub is_list : IsList m (xs ++ cell l.fresh k v ∷ [])

-- A list that is empty takes a new key whatever its tail is, and keeps that tail.
pub list_add-first :
    (k : Text) (v : Option Data) (l : ListT)
    → IsList l []
    → (m : ListT) × Appended l [] k v m
      × (m.tail ≡ l.tail)
      × ((b : ℕ) → b < l.fresh → m.heap b ≡ l.heap b)
      × (m.fresh ≡ suc l.fresh)
unfolding alloc_node link_node grown write
list_add-first k v l is =
    let heap = write l.heap l.fresh (some (node (entry (some k) v) none)) in
    let m = grown k v l [] is heap (some l.fresh) l.tail in
    (
      m,
      record {
        added = list_add-absent k v l [] is refl ∙ rw (is.chain, link_node) refl;
        is_list =
            grown-IsList k v l [] is heap (some l.fresh) l.tail
              (refl, (none, ground arith, refl, refl)) refl;
      },
      refl,
      λ b lt. ground arith,
      refl,
    )

link_node-behind :
    (a : ℕ) (head tail : Ptr) (h t : ℕ) (l : ListT) (heap : Heap)
    → head ≡ some h
    → (tail ≡ some t) ⊎ ((tail ≡ none) × (h ≡ t))
    → set_proximo l.heap (some t) (some a) ≡ ret heap
    → link_node a head tail l ≡ ret (record l { heap = heap; tail = some a; size = l.size + 1 })
unfolding link_node
link_node-behind a head tail h t l heap e (inl at_tail) run = rw (e, at_tail) (rw run refl)
link_node-behind a head tail h t l heap e (inr (no_tail, same)) run =
    rw (e, no_tail, same) (rw run refl)

tail_or_head :
    (x : Cell) (xs : Cells) (tail : Ptr) (t : ℕ)
    → last (x ∷ xs) ≡ some t
    → TailOk tail (x ∷ xs)
    → (tail ≡ some t) ⊎ ((tail ≡ none) × (x.address ≡ t))
tail_or_head x xs tail t e (inl at_last) = inl (at_last ∙ e)
tail_or_head x [] tail t e (inr (short, no_tail)) = inr (no_tail, ground arith)
tail_or_head x (y ∷ xs) tail t e (inr (short, no_tail)) = absurd (omega arith)

-- With a sound tail a new key goes to the end of the list, and the tail is sound again.
pub list_add-append :
    (k : Text) (v : Option Data) (l : ListT) (xs : Cells)
    → IsList l xs
    → has_key k xs ≡ false
    → TailOk l.tail xs
    → (m : ListT) × Appended l xs k v m × TailOk m.tail (xs ++ cell l.fresh k v ∷ [])
unfolding alloc_node link_node grown
list_add-append k v l [] is absent ok =
    let (m, added, kept, _, _) = list_add-first k v l is in
    let empty : l.tail ≡ none = ground arith in (m, added, inr (omega arith, kept ∙ empty))
list_add-append k v l (x ∷ xs) is absent ok =
    let (t, at_t) = last-cons x xs in
    let (heap, run, chain) = linked k v l (x ∷ xs) is absent t at_t in
    let m = grown k v l (x ∷ xs) is heap l.head (some l.fresh) in
    let end : last (x ∷ xs ++ cell l.fresh k v ∷ []) ≡ some l.fresh =
      Shape.last-snoc (x ∷ xs) (cell l.fresh k v) in
    let is_list = grown-IsList k v l (x ∷ xs) is heap l.head (some l.fresh) chain absent in
    let where_to : (l.tail ≡ some t) ⊎ ((l.tail ≡ none) × (x.address ≡ t)) =
      tail_or_head x xs l.tail t at_t ok in
    (
      m,
      record {
        added =
            list_add-absent k v l (x ∷ xs) is absent
            ∙ ap (λ r. r >>= λ m. ret (pos 0, some m))
                (link_node-behind l.fresh l.head l.tail x.address t _ heap is.chain.0 where_to run);
        is_list = is_list;
      },
      inl (sym end),
    )

-- Behind a tail that was freed, the new node of a new key is linked into freed memory.
pub list_add-dangling :
    (k : Text) (v : Option Data) (l : ListT) (xs : Cells) (t : ℕ)
    → IsList l xs
    → has_key k xs ≡ false
    → l.head ≢ none
    → l.tail ≡ some t
    → l.heap t ≡ none
    → t < l.fresh
    → list_add (some l) (some (entry (some k) v)) ≡ fault
unfolding alloc_node link_node set_proximo write
list_add-dangling k v l xs t is absent ne tail gone lt =
    list_add-absent k v l xs is absent
    ∙ ap (λ r. r >>= λ m. ret (pos 0, some m))
        (link_node-freed l.fresh l.head l.tail t _ ne tail (ground arith))
  where
    link_node-freed :
        (a : ℕ) (head tail : Ptr) (t : ℕ) (l : ListT)
        → head ≢ none
        → tail ≡ some t
        → l.heap t ≡ none
        → link_node a head tail l ≡ fault
    link_node-freed a none tail t l ne e gone = absurd (ne refl)
    link_node-freed a (some h) tail t l ne e gone = rw e (rw gone refl)
