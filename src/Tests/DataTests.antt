-- ===== src/Tests/DataTests.antt =====
-- Values of source/data.c.
use hash_map_storage_service.Prelude.{refl, [], ◌∷◌, ◌≡◌}
use hash_map_storage_service.Prelude.Outcome.{ret, fault}
use hash_map_storage_service.Prelude.Text.{Text}
use hash_map_storage_service.Data.{c_string}
use hash_map_storage_service.Data.Dup.{copy_block}

abbrev abc : Text
abc = 97 ∷ 98 ∷ 99 ∷ []

copied_text : c_string (copy_block abc) ≡ ret abc
unfolding c_string
copied_text = refl

copied_long : c_string (copy_block (97 ∷ abc)) ≡ fault
unfolding c_string
copied_long = refl
