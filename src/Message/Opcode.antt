-- ===== src/Message/Opcode.antt =====
-- `MessageT__Opcode` of include/sdmessage.pb-c.h. The enumeration is open: a message can carry any
-- other int.
use hash_map_storage_service.Prelude.Int.{ℤ, pos}

abbrev pub bad : ℤ
bad = pos 0

abbrev pub size : ℤ
size = pos 10

abbrev pub del : ℤ
del = pos 20

abbrev pub get : ℤ
get = pos 30

abbrev pub put : ℤ
put = pos 40

abbrev pub getkeys : ℤ
getkeys = pos 50

abbrev pub verify : ℤ
verify = pos 60

abbrev pub error : ℤ
error = pos 99
