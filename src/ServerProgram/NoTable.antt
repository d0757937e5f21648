-- ===== src/ServerProgram/NoTable.antt =====
-- A server that `table_skel_init` of source/table_skel.c left without a table: `main` of
-- source/table-server.c does not use its result.
use hash_map_storage_service.Prelude.{ℕ, ◌≡◌, ◌∙◌, ap, true, false, Option, none, some, []}
use hash_map_storage_service.Prelude.Int.{ℤ, pos, leb_ℤ}
use hash_map_storage_service.Prelude.Outcome.{ret}
use hash_map_storage_service.Data.{Block}
use hash_map_storage_service.Message.{Message, MessageT, free_message}
use hash_map_storage_service.Skeleton.{Server}
use hash_map_storage_service.Skeleton.Refuse.{invoke-no_table}
use hash_map_storage_service.Startup.{start_server}
use hash_map_storage_service.Startup.State.{refused_start}
use hash_map_storage_service.NetworkServer.{muted, Traffic, is_bad, serve}
use hash_map_storage_service.NetworkServer.Serve.{serve-refused}

-- A start with a number of lists that is not positive leaves a new server without a table, and its
-- loop refuses every request that is not bad: the message is freed, nothing is sent, and the
-- connection is muted.
pub start_server-serve-muted :
    (pack : MessageT → Block) (traffic : Traffic) (sock n_lists : ℤ) (s : Server) (m : Message)
    (h : ℕ → Option Block)
    → leb_ℤ n_lists (pos 0) ≡ true
    → s.table ≡ none
    → is_bad m ≡ false
    → free_message s.store.blocks (some m) ≡ ret h
    → serve pack traffic sock (start_server n_lists s).1 (some m)
      ≡ ret (muted, record s { store = record s.store { blocks = h } }, [])
start_server-serve-muted pack traffic sock n_lists s m h few no_table good freed =
    ap (λ r. serve pack traffic sock r.1 (some m)) (refused_start n_lists s few)
    ∙ serve-refused pack traffic sock s s m (some m) h good
        (invoke-no_table traffic.junk s (some m) no_table) freed
