-- ===== src/Message/Content.antt =====
-- `MessageT__CType` of include/sdmessage.pb-c.h.
use hash_map_storage_service.Prelude.Int.{ℤ, pos}

abbrev pub bad : ℤ
bad = pos 0

abbrev pub key : ℤ
key = pos 10

abbrev pub value : ℤ
value = pos 20

abbrev pub entry : ℤ
entry = pos 30

abbrev pub keys : ℤ
keys = pos 40

abbrev pub result : ℤ
result = pos 50

abbrev pub none : ℤ
none = pos 60
