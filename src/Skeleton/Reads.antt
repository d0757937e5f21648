-- ===== src/Skeleton/Reads.antt =====
-- The requests of `invoke` in source/table_skel.c that read the table.
use hash_map_storage_service.Prelude.{
  ℕ, ◌≡◌, refl, ◌∙◌, ap, Bool, true, false, some, none, Option, List, ◌==◌, if◌then◌else◌, length,
  arith, leb,
}
use hash_map_storage_service.Prelude.Int.{ℤ, pos, ◌+ℤ◌, ltb_ℤ, pos_part}
use hash_map_storage_service.Prelude.Outcome.{Outcome, ret, fault, out_of_fuel, ◌>>=◌}
use hash_map_storage_service.Prelude.Text.{Text}
use hash_map_storage_service.Data.{Block, Data, data_of}
use hash_map_storage_service.NodeList.Cells.{Cells}
use hash_map_storage_service.Table.{TableT, table_get, table_size, table_get_keys}
use hash_map_storage_service.Table.Rows.{IsTable}
use hash_map_storage_service.Table.View.{view}
use hash_map_storage_service.Table.Get.{dup_found, table_get-view}
use hash_map_storage_service.Table.Keys.{all_keys, table_get_keys-all_keys}
use hash_map_storage_service.Fifo.{Link}
use hash_map_storage_service.Message.{Message, Ptr, alloc, read_text}
use hash_map_storage_service.Message.Opcode
use hash_map_storage_service.Message.Content
use hash_map_storage_service.Skeleton.{
  Server, Reply, is_refused, answer_get, answer_keys, answer_size, answer_value, place, dispatch,
  invoke_on, invoke,
}

-- An accepted request runs its branch.
invoke-dispatch :
    (junk : Link) (s : Server) (t : TableT) (m : Message)
    → s.table ≡ some t
    → is_refused m ≡ false
    → invoke junk s (some m) ≡ dispatch junk s m
unfolding invoke invoke_on
invoke-dispatch junk s t m table accepted =
    ap (λ x. invoke_on junk s x (some m)) table ∙ rw accepted refl

get-at_table :
    (s : Server) (t : TableT) (m : Message) (k : Text)
    → s.table ≡ some t
    → read_text s.store.blocks m.key ≡ ret (some k)
    → answer_get s m ≡ (table_get (some t) (some k) >>= λ d. ret (answer_value s m d))
unfolding answer_get
get-at_table s t m k table key =
    rw key (ap (λ x. table_get x (some k) >>= λ d. ret (answer_value s m d)) table)

-- The message as a request with an opcode.
abbrev pub asking : ℤ → Message → Message
asking opcode m = record m { opcode = opcode }

-- The answer to a request for the size.
abbrev pub size_of : TableT → Message → Message
size_of t m = record m { opcode = pos 11; c_type = Content.result; data_size = pos t.size }

-- The answer to a request for the keys, with NULL for no key.
abbrev pub keys_in : TableT → List Cells → Message → Message
keys_in t xss m = record m {
  opcode = pos 51;
  c_type = Content.keys;
  n_keys = t.size;
  keys = if t.size == 0 then none else some (all_keys xss);
}

-- The answer to a get, with the size of the value and its address.
abbrev pub value_at : ℤ → Ptr → Message → Message
value_at n a m = record m { opcode = pos 31; c_type = Content.value; data_size = n; bytes = a }

-- What follows for a copy of the block of a value: the block gets an address.
abbrev pub reply_block : Server → Message → ℤ → Option Block → Reply
reply_block s m n none = (pos 0, s, some (value_at n none m))
reply_block s m n (some b) = (
  pos 0,
  record s { store = (alloc s.store b).1 },
  some (value_at n (some (alloc s.store b).0) m),
)

-- What follows for a copy of a value, NULL if there is none.
abbrev pub reply_value : Server → Message → Option Data → Reply
reply_value s m none = (pos 0, s, some (value_at (pos 0) none m))
reply_value s m (some d) = reply_block s m d.datasize d.bytes

answer_value-reply :
    (s : Server) (m : Message) (d : Option Data)
    → answer_value s (asking Opcode.get m) d ≡ reply_value s m d
unfolding answer_value place ◌+ℤ◌
answer_value-reply s m none = refl
answer_value-reply s m (some d) = at_bytes d.bytes
  where
    at_bytes :
        (b : Option Block)
        → answer_value s (asking Opcode.get m) (some (data_of d.datasize b))
          ≡ reply_block s m d.datasize b
    at_bytes none = refl
    at_bytes (some b) = refl

keys_reply : Server → Message → ℕ → Option (List Text) → Outcome Reply
keys_reply s m n keys =
    ret (
      pos 0,
      s,
      some (record m { opcode = pos 51; c_type = Content.keys; n_keys = n; keys = keys }),
    )

-- The answer with the keys, by the result of `table_size` and of `table_get_keys`.
keys_answer : Server → Message → ℕ → Outcome (List Text) → Outcome Reply
unfolding keys_reply
keys_answer s m n keys =
    if n == 0
    then keys_reply s m n none
    else keys >>= λ ks. if leb (length ks) n then keys_reply s m n (some ks) else fault

keys-at_table :
    (s : Server) (t : TableT) (xss : List Cells) (m : Message)
    → s.table ≡ some t
    → IsTable t xss
    → answer_keys s (asking Opcode.getkeys m) ≡ ret (pos 0, s, some (keys_in t xss m))
unfolding answer_keys keys_answer keys_reply table_size ◌+ℤ◌
keys-at_table s t xss m table is =
    let (found, count) = table_get_keys-all_keys.0 t xss is in
    let fits : leb (length (all_keys xss)) t.size ≡ true = ground (arith, count) in
    ap (λ x. keys_answer s m (pos_part (table_size x)) (table_get_keys x)) table
    ∙ (ap (keys_answer s m t.size) found ∙ at_size (t.size == 0) fits)
  where
    at_size :
        (b : Bool)
        → leb (length (all_keys xss)) t.size ≡ true
        → (if b
            then keys_reply s m t.size none
            else if leb (length (all_keys xss)) t.size
            then keys_reply s m t.size (some (all_keys xss))
            else fault)
          ≡ keys_reply s m t.size (if b then none else some (all_keys xss))
    at_size true fits = refl
    at_size false fits = rw fits refl

pub invoke-size :
    (junk : Link) (s : Server) (t : TableT) (m : Message)
    → s.table ≡ some t
    → ltb_ℤ m.c_type (pos 10) ≡ false
    → invoke junk s (some (asking Opcode.size m)) ≡ ret (pos 0, s, some (size_of t m))
unfolding dispatch answer_size table_size ◌+ℤ◌
invoke-size junk s t m table accepted =
    invoke-dispatch junk s t (asking Opcode.size m) table accepted
    ∙ ap (λ x. ret (pos 0, s, some (record (size_of t m) { data_size = table_size x }))) table

pub invoke-keys :
    (junk : Link) (s : Server) (t : TableT) (xss : List Cells) (m : Message)
    → s.table ≡ some t
    → IsTable t xss
    → ltb_ℤ m.c_type (pos 10) ≡ false
    → invoke junk s (some (asking Opcode.getkeys m)) ≡ ret (pos 0, s, some (keys_in t xss m))
unfolding dispatch
invoke-keys junk s t xss m table is accepted =
    invoke-dispatch junk s t (asking Opcode.getkeys m) table accepted
    ∙ keys-at_table s t xss m table is

-- On a server with a sound table, for a message with a content type of 10 or more, `invoke` of the
-- three requests that read leaves the server as it is but for a new block, and answers what the
-- abstract map of the table says: the size, all the keys, and, for a message with the key k, the
-- copy that `data_dup` makes of the value of k, or no data if k is not there.
pub invoke-view :
    (junk : Link) (s : Server) (t : TableT) (xss : List Cells) (m : Message) (k : Text)
    → s.table ≡ some t
    → IsTable t xss
    → ltb_ℤ m.c_type (pos 10) ≡ false
    → read_text s.store.blocks m.key ≡ ret (some k)
    → (invoke junk s (some (asking Opcode.size m)) ≡ ret (pos 0, s, some (size_of t m)))
      × (invoke junk s (some (asking Opcode.getkeys m)) ≡ ret (pos 0, s, some (keys_in t xss m)))
      × (invoke junk s (some (asking Opcode.get m))
          ≡ (dup_found (view k xss) >>= λ d. ret (reply_value s m d)))
unfolding dispatch
invoke-view junk s t xss m k table is accepted key = (
  invoke-size junk s t m table accepted,
  invoke-keys junk s t xss m table is accepted,
  invoke-dispatch junk s t (asking Opcode.get m) table accepted
      ∙ (get-at_table s t (asking Opcode.get m) k table key
          ∙ (ap (λ o. o >>= λ d. ret (answer_value s (asking Opcode.get m) d))
                (table_get-view t xss k is)
              ∙ each (dup_found (view k xss)))),
)
  where
    each :
        (o : Outcome (Option Data))
        → (o >>= λ d. ret (answer_value s (asking Opcode.get m) d))
          ≡ (o >>= λ d. ret (reply_value s m d))
    each (ret d) = ap ret (answer_value-reply s m d)
    each fault = refl
    each out_of_fuel = refl
