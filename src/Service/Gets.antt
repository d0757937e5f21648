-- ===== src/Service/Gets.antt =====
-- The get of source/client_stub.c with a server of source/table_skel.c.
use hash_map_storage_service.Prelude.{ℕ, ◌≡◌, refl, ◌∙◌, ap, some, none, [], ◌∷◌, List, Option}
use hash_map_storage_service.Prelude.Int.{pos}
use hash_map_storage_service.Prelude.Outcome.{ret, ◌>>=◌}
use hash_map_storage_service.Prelude.Text.{Text}
use hash_map_storage_service.Data.{Block, data_of}
use hash_map_storage_service.Data.Dup.{NoNul}
use hash_map_storage_service.NodeList.Cells.{Cells}
use hash_map_storage_service.Table.{TableT}
use hash_map_storage_service.Table.Rows.{IsTable}
use hash_map_storage_service.Table.View.{view}
use hash_map_storage_service.Table.Get.{dup_found}
use hash_map_storage_service.Message.{Store, MessageT, write}
use hash_map_storage_service.Message.Wire.{wire}
use hash_map_storage_service.Message.Opcode
use hash_map_storage_service.Message.Content
use hash_map_storage_service.Skeleton.{Server, invoke}
use hash_map_storage_service.Skeleton.Reads.{reply_value, invoke-view}
use hash_map_storage_service.NetworkServer.{Traffic}
use hash_map_storage_service.Stub.{rtable_get}
use hash_map_storage_service.Stub.Answers.{rtable_get-empty}
use hash_map_storage_service.Service.{peer, Carried, peer-received}
use hash_map_storage_service.Service.Keyed.{
  key_request, key_answer, key_message, with_key, arrived, made, key_there, packed, freed,
}

-- The answer to a get of a key that is not there.
abbrev pub no_value : Text → MessageT
no_value key = key_answer (pos 31) Content.value (pos 0) key

-- A client gets a key that is not empty and that the abstract map of the server's sound table does
-- not have. If the kernel carries the request and the answer, in any portions, and the request is
-- small enough for an int and `unpack` undoes `pack` on them, up to "" for NULL, then `rtable_get` does not return
-- NULL, but a value of one byte, the NUL of the empty string.
rtable_get-absent :
    (pack : MessageT → Block) (unpack : Block → Option MessageT) (traffic : MessageT → Traffic)
    (sock : ℕ) (s : Server) (t : TableT) (xss : List Cells) (c : ℕ) (key : Text) (store : Store)
    → NoNul (c ∷ key)
    → s.table ≡ some t
    → IsTable t xss
    → view (c ∷ key) xss ≡ none
    → Carried pack unpack
        (traffic (key_request Opcode.get (c ∷ key)))
        (key_request Opcode.get (c ∷ key))
        (no_value (c ∷ key))
    → (store' : Store) × (rtable_get
          (some (peer pack unpack traffic (pos sock) s))
          store
          (some (c ∷ key))
        ≡ ret (some (data_of (pos 1) (some (some 0 ∷ []))), store'))
rtable_get-absent pack unpack traffic sock s t xss c key store no_nul table is absent carried =
    let q = key_request Opcode.get (c ∷ key) in
    let m = key_message s c key Opcode.get Content.key (pos 0) in
    let m' = key_message s c key (pos 31) Content.value (pos 0) in
    let (_, _, value) =
      invoke-view (traffic q).junk (arrived s c key) t xss m (c ∷ key) table is refl
        (key_there s c key no_nul) in
    let run : invoke (traffic q).junk (arrived s c key) (some m)
        ≡ ret (pos 0, arrived s c key, some m') =
      value
      ∙ ap (λ e. dup_found e >>= λ d. ret (reply_value (arrived s c key) m d)) absent
      ∙ (unfold dup_found in refl) in
    rtable_get-empty (peer pack unpack traffic (pos sock) s) store (wire (no_value (c ∷ key))) refl
      refl c key no_nul
      (peer-received pack unpack traffic sock s (arrived s c key) q (no_value (c ∷ key)) m m'
        (with_key s c key) (write (with_key s c key).blocks s.store.fresh none) carried refl
        (made s c key Opcode.get) refl run (packed s c key no_nul (pos 31) Content.value (pos 0))
        (freed s c key (pos 31) Content.value (pos 0)))
