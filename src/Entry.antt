-- ===== src/Entry.antt =====
-- source/entry.c, include/entry.h: a key with its value.
use hash_map_storage_service.Prelude.{Option, none, some}
use hash_map_storage_service.Prelude.Outcome.{Outcome, ret, ◌>>=◌, deref}
use hash_map_storage_service.Prelude.Text.{Text}
use hash_map_storage_service.Data.{Data, data_dup}

-- `struct entry_t`
pub record Entry : Type 0 where
  pub key : Option Text
  pub value : Option Data

abbrev pub entry : Option Text → Option Data → Entry
entry k v = record { key = k; value = v }

unfoldable pub entry_create : Option Text → Option Data → Option Entry
entry_create none d = none
entry_create (some k) none = none
entry_create (some k) (some d) = some (entry (some k) (some d))

unfoldable pub entry_initialize : Option Entry → Outcome (Option Entry)
entry_initialize e = deref e >>= λ _. ret (some (entry none none))

-- `strdup` reads its argument, a fault at NULL.
unfoldable pub entry_dup : Option Entry → Outcome (Option Entry)
entry_dup none = ret none
entry_dup (some e) = do k ← deref e.key; v ← data_dup e.value; ret (some (entry (some k) v))
