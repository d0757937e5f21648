-- ===== src/Table/PutRow.antt =====
-- What `table_put` of source/table.c does to the list that the key hashes to.
use hash_map_storage_service.Prelude.{
  ℕ, ◌+◌, ◌≡◌, refl, ◌∙◌, ap, sym, Option, none, some, [], ◌∷◌, ◌++◌, length, true, false, arith,
  ◌||◌, inl, inr, if◌then◌else◌, ◌⊎◌, is_some,
}
use hash_map_storage_service.Prelude.Int.{pos}
use hash_map_storage_service.Prelude.Outcome.{ret}
use hash_map_storage_service.Prelude.Text.{Text, text_eq, text_eq_refl}
use hash_map_storage_service.Data.{Data}
use hash_map_storage_service.Entry.{entry}
use hash_map_storage_service.NodeList.{ListT, list_remove}
use hash_map_storage_service.NodeList.Append.{Appended, list_add-first, list_add-append}
use hash_map_storage_service.NodeList.Cells.{
  Cells, cell, IsList, TailOk, find, has_key, erase, Distinct,
}
use hash_map_storage_service.NodeList.Frame.{
  find-append, find-erase, has_key-append, has_key-erase, is_some-find,
}
use hash_map_storage_service.NodeList.Remove.{list_remove-erase}
use hash_map_storage_service.NodeList.Shape

-- A list that takes a new key: its tail is sound, or it is empty.
abbrev pub Ready : ListT → Cells → Type 0
Ready l xs = TailOk l.tail xs ⊎ (xs ≡ [])

pub add-Ready :
    (k : Text) (v : Option Data) (l : ListT) (xs : Cells)
    → IsList l xs
    → has_key k xs ≡ false
    → Ready l xs
    → (m : ListT) × Appended l xs k v m
add-Ready k v l [] is absent r = let (m, a, _, _, _) = list_add-first k v l is in (m, a)
add-Ready k v l (x ∷ xs) is absent (inl ok) =
    let (m, a, _) = list_add-append k v l (x ∷ xs) is absent ok in (m, a)
add-Ready k v l (x ∷ xs) is absent (inr e) = absurd (omega (arith, ap length e))

pub remove-Ready :
    (k : Text) (l : ListT) (xs : Cells)
    → IsList l xs
    → has_key k xs ≡ true
    → Ready l xs
    → (m : ListT) × (list_remove (some l) (some k) ≡ ret (pos 0, some m))
      × IsList m (erase k xs)
      × Ready m (erase k xs)
unfolding erase
remove-Ready k l [] is h r = ground arith
remove-Ready k l (x ∷ xs) is h (inr e) = absurd (omega (arith, ap length e))
remove-Ready k l (x ∷ []) is h (inl ok) =
    let (m, run, is', _) = list_remove-erase k l (x ∷ []) is ok h in
    (m, run, is', inr (ground arith))
remove-Ready k l (x ∷ y ∷ ys) is h (inl ok) =
    let (m, run, is', ok') = list_remove-erase k l (x ∷ y ∷ ys) is ok h in
    (m, run, is', inl (ok' (λ e. absurd (omega arith))))

pub has_key-erase_self : (k : Text) (xs : Cells) → Distinct xs → has_key k (erase k xs) ≡ false
has_key-erase_self k xs d =
    let gone : find k (erase k xs) ≡ none = find-erase k k xs d ∙ rw (text_eq_refl k) refl in
    sym (is_some-find k (erase k xs)) ∙ ap is_some gone

-- What a put leaves in the row of the key: the new entry at the end, the others as they were.
pub record PutRow (k : Text) (v : Option Data) (xs ys : Cells) : Type 0 where
  pub found : find k ys ≡ some (entry (some k) v)
  pub others : (q : Text) → text_eq q k ≡ false → find q ys ≡ find q xs
  pub keys : (q : Text) → has_key q ys ≡ true → (has_key q xs || text_eq q k) ≡ true
  pub size : length ys ≡ length xs + (if has_key k xs then 0 else 1)

pub snoc-PutRow :
    (k : Text) (v : Option Data) (a : ℕ) (xs : Cells)
    → has_key k xs ≡ false
    → PutRow k v xs (xs ++ cell a k v ∷ [])
snoc-PutRow k v a xs absent = record {
  found = find-append k k a v xs absent ∙ rw (text_eq_refl k) refl;
  others = λ q ne. find-append k q a v xs absent ∙ rw ne refl;
  keys = λ q h. sym (has_key-append k q a v xs) ∙ h;
  size = rw absent (Shape.length-snoc xs (cell a k v));
}

pub erase-snoc-PutRow :
    (k : Text) (v : Option Data) (a : ℕ) (xs : Cells)
    → Distinct xs
    → has_key k xs ≡ true
    → PutRow k v xs (erase k xs ++ cell a k v ∷ [])
erase-snoc-PutRow k v a xs d h =
    let gone = has_key-erase_self k xs d in
    let new = snoc-PutRow k v a (erase k xs) gone in
    record {
      found = new.found;
      others = λ q ne. new.others q ne ∙ find-erase k q xs d ∙ rw ne refl;
      keys = λ q m. ground (arith, new.keys q m, has_key-erase k q xs);
      size =
          rw h
            (omega (arith, Shape.length-snoc (erase k xs) (cell a k v), Shape.length-erase k xs h));
    }
