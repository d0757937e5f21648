-- ===== src/Tests/ProgramTests.antt =====
-- source/table-server.c without a list.
use hash_map_storage_service.Prelude.{◌≡◌, refl, none, [], some}
use hash_map_storage_service.Prelude.Int.{pos, minus_one}
use hash_map_storage_service.Prelude.Outcome.{ret}
use hash_map_storage_service.Skeleton.{Server}
use hash_map_storage_service.Message.{write}
use hash_map_storage_service.NetworkServer.{serve, muted}
use hash_map_storage_service.Startup.{start_server}
use hash_map_storage_service.ServerProgram.NoTable.{start_server-serve-muted}
use hash_map_storage_service.Tests.SkeletonTests.{waiting, delete_b, freed_request}
use hash_map_storage_service.Tests.NetworkTests.{traffic}
use hash_map_storage_service.Tests.Codec.{pack}

abbrev empty : Server
empty = record waiting { table = none }

start_server-serve-muted_example :
    serve pack traffic (pos 4) (start_server minus_one empty).1 (some delete_b)
    ≡ ret (
      muted,
      record empty { store = record empty.store { blocks = write empty.store.blocks 0 none } },
      [],
    )
start_server-serve-muted_example =
    start_server-serve-muted pack traffic (pos 4) minus_one empty delete_b
      (write empty.store.blocks 0 none) refl refl refl freed_request
