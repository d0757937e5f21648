-- ===== src/Message/Print.antt =====
-- `print_message` of source/message.c: the lines that it prints, less those that are always the same.
use hash_map_storage_service.Prelude.{
  ℕ, zero, suc, ◌≡◌, refl, ◌∙◌, ◌||◌, Option, none, some, List, [], ◌∷◌, ◌++◌, if◌then◌else◌, Bool,
  true, false, arith,
}
use mathlib.Core.Path.{subst}
use hash_map_storage_service.Prelude.Int.{ℤ, pos, ◌+ℤ◌, eqb_ℤ}
use hash_map_storage_service.Prelude.Outcome.{Outcome, ret, fault, ◌>>=◌, bind-inv, ret_injective}
use hash_map_storage_service.Prelude.Text.{Text}
use hash_map_storage_service.Message.{
  Blocks, Message, MessageT, read_text, dup_keys, message_t_keys, to_message_t,
}
use hash_map_storage_service.Message.Opcode
use hash_map_storage_service.Message.Content

-- A string that is NULL is printed as "(null)".
pub data Printed : Type 0 where
  codes : ℤ → ℤ → Printed
  key_is : Option Text → Printed
  number : ℤ → Printed
  value_is : ℤ → Option Text → Printed
  nth_key : ℕ → Text → Printed
  size_is : ℤ → Printed
  op_num : ℤ → Printed

-- n elements of the array from the element i on, a fault behind its end.
print_keys : ℕ → ℕ → List Text → Outcome (List Printed)
print_keys i zero keys = ret []
print_keys i (suc n) [] = fault
print_keys i (suc n) (k ∷ keys) = print_keys (suc i) n keys >>= λ ls. ret (nth_key i k ∷ ls)

print_array : ℕ → Option (List Text) → Outcome (List Printed)
unfolding print_keys
print_array n none = ret []
print_array n (some keys) = print_keys 0 n keys

print_key : Blocks → Message → Outcome (List Printed)
print_key h m = read_text h m.key >>= λ key. ret (key_is key ∷ [])

print_value : Blocks → Message → Outcome (List Printed)
print_value h m = read_text h m.bytes >>= λ value. ret (value_is m.data_size value ∷ [])

print_entry : Blocks → Message → Outcome (List Printed)
unfolding print_key print_value
print_entry h m = do key ← print_key h m; value ← print_value h m; ret (key ++ value)

print_content : Blocks → Message → Outcome (List Printed)
unfolding print_array print_entry
print_content h m =
    if eqb_ℤ m.c_type Content.key
    then print_key h m
    else if eqb_ℤ m.opcode (Opcode.verify +ℤ pos 1) || eqb_ℤ m.opcode Opcode.verify
    then ret (number m.data_size ∷ [])
    else if eqb_ℤ m.c_type Content.value
    then print_value h m
    else if eqb_ℤ m.c_type Content.entry
    then print_entry h m
    else if eqb_ℤ m.c_type Content.keys
    then print_array m.n_keys m.keys
    else if eqb_ℤ m.c_type Content.result
    then ret (size_is m.data_size ∷ [])
    else ret (op_num m.data_size ∷ [])

unfoldable pub print_message : Blocks → Option Message → Outcome (List Printed)
unfolding print_content
print_message h none = fault
print_message h (some m) = print_content h m >>= λ lines. ret (codes m.opcode m.c_type ∷ lines)

abbrev pub numbered : ℕ → List Text → List Printed
numbered i [] = []
numbered i (k ∷ keys) = nth_key i k ∷ numbered (suc i) keys

abbrev pub numbered_array : Option (List Text) → List Printed
numbered_array none = []
numbered_array (some keys) = numbered 0 keys

-- What is shown of the struct that is packed.
abbrev pub shown : MessageT → List Printed
shown q =
    if eqb_ℤ q.c_type Content.key
    then key_is q.key ∷ []
    else if eqb_ℤ q.opcode (Opcode.verify +ℤ pos 1) || eqb_ℤ q.opcode Opcode.verify
    then number q.data_size ∷ []
    else if eqb_ℤ q.c_type Content.value
    then value_is q.data_size q.bytes ∷ []
    else if eqb_ℤ q.c_type Content.entry
    then key_is q.key ∷ value_is q.data_size q.bytes ∷ []
    else if eqb_ℤ q.c_type Content.keys
    then numbered_array q.keys
    else if eqb_ℤ q.c_type Content.result
    then size_is q.data_size ∷ []
    else op_num q.data_size ∷ []

print_keys-dup_keys :
    (i n : ℕ) (keys ks : List Text)
    → dup_keys n keys ≡ ret ks
    → print_keys i n keys ≡ ret (numbered i ks)
unfolding print_keys dup_keys
print_keys-dup_keys i zero keys ks e =
    subst (λ ks. ret [] ≡ ret (numbered i ks)) (ret_injective e) refl
print_keys-dup_keys i (suc n) [] ks e = absurd (ground arith)
print_keys-dup_keys i (suc n) (k ∷ keys) ks e =
    let (ks', run, same) = bind-inv (dup_keys n keys) (λ ks. ret (k ∷ ks)) ks e in
    rw (print_keys-dup_keys (suc i) n keys ks' run) (
      subst (λ ks. ret (nth_key i k ∷ numbered (suc i) ks') ≡ ret (numbered i ks))
        (ret_injective same) refl)

print_array-message_t_keys :
    (n : ℕ) (keys ks : Option (List Text))
    → message_t_keys n keys ≡ ret ks
    → print_array n keys ≡ ret (numbered_array ks)
unfolding print_array message_t_keys
print_array-message_t_keys n none ks e =
    subst (λ ks. ret [] ≡ ret (numbered_array ks)) (ret_injective e) refl
print_array-message_t_keys n (some keys) ks e =
    let (ks', run, same) = bind-inv (dup_keys n keys) (λ ks. ret (some ks)) ks e in
    print_keys-dup_keys 0 n keys ks' run
    ∙ subst (λ ks. ret (numbered 0 ks') ≡ ret (numbered_array ks)) (ret_injective same) refl

branch :
    {A : Type 0} (b : Bool) (o r : Outcome A) (x y : A)
    → o ≡ ret x
    → r ≡ ret y
    → (if b then o else r) ≡ ret (if b then x else y)
branch true o r x y e f = e
branch false o r x y e f = f

-- The struct of the message, with these strings and keys.
abbrev struct_of : Message → Option Text → Option Text → Option (List Text) → MessageT
struct_of m bytes key keys = record {
  opcode = m.opcode;
  c_type = m.c_type;
  data_size = m.data_size;
  bytes = bytes;
  key = key;
  n_keys = m.n_keys;
  keys = keys;
}

print_content-shown :
    (h : Blocks) (m : Message) (bytes key : Option Text) (keys : Option (List Text))
    → read_text h m.bytes ≡ ret bytes
    → read_text h m.key ≡ ret key
    → message_t_keys m.n_keys m.keys ≡ ret keys
    → print_content h m ≡ ret (shown (struct_of m bytes key keys))
unfolding print_content print_entry print_key print_value
print_content-shown h m bytes key keys rb rk rs =
    let on_key : print_key h m ≡ ret (key_is key ∷ []) = rw rk refl in
    let on_value : print_value h m ≡ ret (value_is m.data_size bytes ∷ []) = rw rb refl in
    let on_entry : print_entry h m ≡ ret (key_is key ∷ value_is m.data_size bytes ∷ []) =
      rw (rk, rb) refl in
    let on_keys = print_array-message_t_keys m.n_keys m.keys keys rs in
    let verifies = eqb_ℤ m.opcode (Opcode.verify +ℤ pos 1) || eqb_ℤ m.opcode Opcode.verify in
    let number_line = number m.data_size ∷ [] in
    let size_line = size_is m.data_size ∷ [] in
    let num_line = op_num m.data_size ∷ [] in
    branch (eqb_ℤ m.c_type Content.key) _ _ _ _ on_key (
      branch verifies (ret number_line) _ number_line _ refl (
        branch (eqb_ℤ m.c_type Content.value) _ _ _ _ on_value (
          branch (eqb_ℤ m.c_type Content.entry) _ _ _ _ on_entry (
            branch (eqb_ℤ m.c_type Content.keys) _ _ _ _ on_keys (
              branch (eqb_ℤ m.c_type Content.result) (ret size_line) (ret num_line) size_line
                num_line refl refl)))))

-- Whenever a message can be packed, it can be printed: `print_message` reads no string and no key but
-- those that `to_message_t` reads, and shows what is packed.
pub print_message-to_message_t :
    (h : Blocks) (m : Message) (q : MessageT)
    → to_message_t h m ≡ ret q
    → print_message h (some m) ≡ ret (codes q.opcode q.c_type ∷ shown q)
unfolding print_message to_message_t
print_message-to_message_t h m q e =
    let (bytes, rb, e₁) = bind-inv (read_text h m.bytes) _ q e in
    let (key, rk, e₂) = bind-inv (read_text h m.key) _ q e₁ in
    let (keys, rs, e₃) = bind-inv (message_t_keys m.n_keys m.keys) _ q e₂ in
    subst (λ q. print_message h (some m) ≡ ret (codes q.opcode q.c_type ∷ shown q))
      (ret_injective e₃) (rw (print_content-shown h m bytes key keys rb rk rs) refl)
