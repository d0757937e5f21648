-- ===== src/Service/Values.antt =====
-- The get of source/client_stub.c of a text that a server of source/table_skel.c holds.
use hash_map_storage_service.Prelude.{
  ℕ, ◌≡◌, refl, ◌∙◌, ap, some, none, [], ◌∷◌, List, Option, arith, length, map, take, drop,
  replicate, ◌++◌, leb, true, if◌then◌else◌, ◌≤◌, ◌==◌, false,
}
use hash_map_storage_service.Prelude.Int.{pos}
use hash_map_storage_service.Prelude.Outcome.{ret, fault, ◌>>=◌}
use hash_map_storage_service.Prelude.Text.{Text}
use hash_map_storage_service.Data.{Block, data_of, c_string, int_bytes}
use hash_map_storage_service.Data.Dup.{
  NoNul, c_string-nul, dup_of, c_string-data_dup, copy_block, data_dup-dup_of, length-map,
}
use hash_map_storage_service.Entry.{entry}
use hash_map_storage_service.NodeList.Cells.{Cells}
use hash_map_storage_service.Table.{TableT}
use hash_map_storage_service.Table.Rows.{IsTable}
use hash_map_storage_service.Table.View.{view}
use hash_map_storage_service.Table.Get.{dup_found}
use hash_map_storage_service.Message.{
  Blocks, Store, Message, MessageT, write, alloc, to_message_t, read_text, free_block, free_message,
  string_block,
}
use hash_map_storage_service.Message.Wire.{wire, to_message-wire}
use hash_map_storage_service.Message.Opcode
use hash_map_storage_service.Message.Content
use hash_map_storage_service.Skeleton.{Server, invoke}
use hash_map_storage_service.Skeleton.Reads.{reply_value, invoke-view}
use hash_map_storage_service.NetworkServer.{Traffic}
use hash_map_storage_service.Stub.{rtable_get}
use hash_map_storage_service.Stub.Answers.{rtable_get-received}
use hash_map_storage_service.Service.{peer, Carried, peer-received}
use hash_map_storage_service.Service.Keyed.{
  key_request, key_message, with_key, arrived, made, key_there,
}
use hash_map_storage_service.Service.Gets.{no_value}
use hash_map_storage_service.NetworkServer.{handle}
use hash_map_storage_service.NetworkServer.Frame.{network_receive-frame}
use hash_map_storage_service.NetworkServer.Serve.{serve-unpacked_fault}
use hash_map_storage_service.Socket.{Reads}
use hash_map_storage_service.Socket.ReadAll.{Gives}
use hash_map_storage_service.Fifo.{Link}
use hash_map_storage_service.Prelude.{◌<◌, ◌⊎◌}

-- The answer to a get with n bytes of a text.
abbrev pub value_answer : ℕ → Text → Text → MessageT
value_answer n text key = record (no_value key) { data_size = pos n; bytes = some text }

take-string_block :
    (t : Text) (b : Block) → take (length t) (map some t ++ b) ≡ take (length t) (map some t)
take-string_block [] b = refl
take-string_block (c ∷ t) b = ap (λ r. some c ∷ r) (take-string_block t b)

-- The bytes of a text are a value with or without the NUL behind them.
same_value : (t : Text) → dup_of (length t) (string_block t) ≡ dup_of (length t) (map some t)
same_value t =
    ap
      (λ b.
        data_of (pos (length t))
          (some (b ++ drop (length t) (int_bytes (length t) ++ replicate 12 none))))
      (take-string_block t (some 0 ∷ []))

-- A message with a value at a and its key at k.
abbrev value_message : ℕ → ℕ → ℕ → Message
value_message n a k = record {
  opcode = pos 31;
  c_type = Content.value;
  data_size = pos n;
  bytes = some a;
  key = some k;
  n_keys = 0;
  keys = none;
}

module _ (h : Blocks) (n a k : ℕ) (b kb : Block) (at_a : h a ≡ some b) (at_k : h k ≡ some kb) where
  value_packed :
      (text key : Text)
      → c_string b ≡ ret text
      → c_string kb ≡ ret key
      → to_message_t h (value_message n a k) ≡ ret (value_answer n text key)
  unfolding to_message_t read_text
  value_packed text key reads reads' = rw (at_a, at_k) (rw (reads, reads') refl)

  value_stuck : c_string b ≡ fault → to_message_t h (value_message n a k) ≡ fault
  unfolding to_message_t read_text
  value_stuck reads = rw at_a (rw reads refl)

  value_freed :
      (a == k) ≡ false
      → free_message h (some (value_message n a k)) ≡ ret (write (write h a none) k none)
  unfolding free_message free_block
  value_freed ne =
      let kept : write h a none k ≡ some kb = unfold write in ground arith in rw at_a (rw kept refl)

-- The blocks of the value and of the key.
value_blocks :
    (s : Server) (c : ℕ) (key : Text) (b : Block)
    → ((alloc (with_key s c key) b).1.blocks (alloc (with_key s c key) b).0 ≡ some b)
      × ((alloc (with_key s c key) b).1.blocks s.store.fresh ≡ some (string_block (c ∷ key)))
      × (((alloc (with_key s c key) b).0 == s.store.fresh) ≡ false)
unfolding alloc write
value_blocks s c key b = (ground arith, ground arith, ground arith)

-- Under the key c ∷ key the map has the text, stored with `strlen` as its size, as the client stores it.
abbrev pub HasText : List Cells → Text → Text → Type 0
HasText xss key text =
    view key xss ≡ some (entry (some key) (some (dup_of (length text) (map some text))))

module _ (s : Server) (t : TableT) (xss : List Cells) (c : ℕ) (key text : Text)
    (no_nul : NoNul (c ∷ key)) (no_nul' : NoNul text) (filled : 0 < length text)
    (small : length text ≤ 16) (table : s.table ≡ some t) (is : IsTable t xss)
    (there : HasText xss (c ∷ key) text) where
  -- The request at the server, its answer, and the server behind it.
  abbrev asked : Message
  asked = key_message s c key Opcode.get Content.key (pos 0)

  abbrev with_value : Store
  with_value = (alloc (with_key s c key) (copy_block text)).1

  abbrev found : Message
  found = value_message (length text) (alloc (with_key s c key) (copy_block text)).0 s.store.fresh

  invoke-found :
      (junk : Link)
      → invoke junk (arrived s c key) (some asked)
        ≡ ret (pos 0, record s { store = with_value }, some found)
  invoke-found junk =
      let (_, _, value) =
        invoke-view junk (arrived s c key) t xss asked (c ∷ key) table is refl
          (key_there s c key no_nul) in
      let copies =
        data_dup-dup_of (length text) (map some text) filled small
          (omega (arith, length-map text)) in
      value
      ∙ ap (λ e. dup_found e >>= λ d. ret (reply_value (arrived s c key) asked d)) there
      ∙ (unfold dup_found in
          ap (λ o. o >>= λ d. ret (reply_value (arrived s c key) asked d)) copies)

  -- What `to_message_t` finds in the block of the answer.
  read_back : c_string (copy_block text) ≡ (if leb (length text) 3 then ret text else fault)
  read_back = (c_string-data_dup text no_nul' filled small).1

  -- A server's sound table has, under a key that is not empty, a text of 4 to 7 or of 16 bytes, stored
  -- so, and neither holds a NUL. If a get of that key comes in whole, in any portions, is small enough for an
  -- int and `unpack` undoes `pack` on it, up to "" for NULL, then `handle` is a fault: to pack the answer, the server reads
  -- padding of its copy that was never set, or, for 16 bytes, behind its end.
  pub handle-found_fault :
      (pack : MessageT → Block) (unpack : Block → Option MessageT) (traffic : Traffic) (sock : ℕ)
      (reads rest : Reads)
      → 4 ≤ length text
      → (length text ≤ 7) ⊎ (length text ≡ 16)
      → unpack (pack (key_request Opcode.get (c ∷ key)))
        ≡ some (wire (key_request Opcode.get (c ∷ key)))
      → length (pack (key_request Opcode.get (c ∷ key))) < 2147483648
      → Gives (int_bytes (length (pack (key_request Opcode.get (c ∷ key))))) traffic.reads reads
      → Gives (pack (key_request Opcode.get (c ∷ key))) reads rest
      → handle pack unpack traffic s (pos sock) ≡ fault
  unfolding handle
  handle-found_fault pack unpack traffic sock reads rest long known back fits head body =
      let many : leb (length text) 3 ≡ false = ground (arith, long) in
      let (at_a, at_k, ne) = value_blocks s c key (copy_block text) in
      let stuck =
        value_stuck with_value.blocks (length text) _ s.store.fresh _ _ at_a at_k
          (read_back ∙ rw many refl) in
      rw
        (network_receive-frame unpack s.store (pack (key_request Opcode.get (c ∷ key)))
          (wire (key_request Opcode.get (c ∷ key))) sock traffic.reads reads rest back fits head
          body)
        (rw
          (to_message-wire s.store (key_request Opcode.get (c ∷ key)) refl
            ∙ made s c key Opcode.get)
          (serve-unpacked_fault pack traffic sock (arrived s c key)
            (record s { store = with_value }) asked found refl (invoke-found traffic.junk) stuck))

  -- A client gets a key that is not empty, under which the server's sound table has a text of 1 to 3
  -- bytes, stored so, and neither holds a NUL. If the kernel carries the request and the answer, in any portions, and the request
  -- is small enough for an int and `unpack` undoes `pack` on them, up to "" for NULL, then `rtable_get` returns that value.
  pub rtable_get-stored :
      (pack : MessageT → Block) (unpack : Block → Option MessageT) (traffic : MessageT → Traffic)
      (sock : ℕ) (store : Store)
      → length text ≤ 3
      → Carried pack unpack
          (traffic (key_request Opcode.get (c ∷ key)))
          (key_request Opcode.get (c ∷ key))
          (value_answer (length text) text (c ∷ key))
      → (store' : Store) × (rtable_get
            (some (peer pack unpack traffic (pos sock) s))
            store
            (some (c ∷ key))
          ≡ ret (some (dup_of (length text) (map some text)), store'))
  rtable_get-stored pack unpack traffic sock store few carried =
      let q = key_request Opcode.get (c ∷ key) in
      let short : leb (length text) 3 ≡ true = ground (arith, few) in
      let (at_a, at_k, ne) = value_blocks s c key (copy_block text) in
      let sent =
        value_packed with_value.blocks (length text) _ s.store.fresh _ _ at_a at_k text (c ∷ key)
          (read_back ∙ rw short refl) (c_string-nul (c ∷ key) [] no_nul) in
      let gone = value_freed with_value.blocks (length text) _ s.store.fresh _ _ at_a at_k ne in
      let (store', got) =
        rtable_get-received (peer pack unpack traffic (pos sock) s) store
          (wire (value_answer (length text) text (c ∷ key))) refl text filled small refl refl c key
          no_nul
          (peer-received pack unpack traffic sock s (record s { store = with_value }) q
            (value_answer (length text) text (c ∷ key)) asked found (with_key s c key) _ carried
            refl (made s c key Opcode.get) refl (invoke-found (traffic q).junk) sent gone) in
      (store', got ∙ ap (λ v. ret (some v, store')) (same_value text))
