-- ===== src/Tests/SerializationTests.antt =====
-- Buffers of source/serialization.c.
use hash_map_storage_service.Prelude.{◌≡◌, some, length, take, arith}
use hash_map_storage_service.Prelude.Int.{pos}
use hash_map_storage_service.Prelude.Outcome.{ret}
use hash_map_storage_service.Data.{Block, data_of}
use hash_map_storage_service.Serialization.{data_to_buffer, buffer_to_data}
use hash_map_storage_service.Serialization.DataRoundTrip.{buffer_to_data-data_to_buffer}
use hash_map_storage_service.Tests.TableTests.{value}

buffer_to_data-data_to_buffer_example :
    (buf : Block) × (data_to_buffer (some (data_of (pos 2) (some value)))
      ≡ ret (pos (length buf), some buf))
    × (buffer_to_data (some buf) (pos (length buf))
        ≡ ret (some (data_of (pos 2) (some (take 2 value)))))
buffer_to_data-data_to_buffer_example =
    buffer_to_data-data_to_buffer 2 value (omega arith) (omega arith) (omega arith)
