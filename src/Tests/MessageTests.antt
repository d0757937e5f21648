-- ===== src/Tests/MessageTests.antt =====
-- A message of source/message.c.
use hash_map_storage_service.Prelude.{none}
use hash_map_storage_service.Message.{Store}

abbrev pub no_blocks : Store
no_blocks = record { blocks = λ a. none; fresh = 0 }
