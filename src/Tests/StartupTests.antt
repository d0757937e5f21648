-- ===== src/Tests/StartupTests.antt =====
-- A start of source/table_skel.c with two servers in the chain.
use hash_map_storage_service.Prelude.{◌≡◌, refl, ◌-◌, none, some, [], ◌∷◌, arith}
use hash_map_storage_service.Prelude.Int.{ℤ, pos, minus_one}
use hash_map_storage_service.Prelude.Outcome.{ret}
use hash_map_storage_service.Prelude.Text.{Text}
use hash_map_storage_service.Table.Rows.{IsTable}
use hash_map_storage_service.Table.Create.{new_table, empty_rows}
use hash_map_storage_service.Skeleton.{Server}
use hash_map_storage_service.Skeleton.Enqueue.{IsServer}
use hash_map_storage_service.Tokens.{is_in, skip, cut, token_of, strtok, digits, signed, atoi}
use hash_map_storage_service.Startup.{id_of, started, table_skel_init}
use hash_map_storage_service.Startup.Order.{IsNumbered}
use hash_map_storage_service.Startup.Extremes.{Found, order_children-Found}
use hash_map_storage_service.Startup.State.{HasHost, answering, table_skel_init-IsServer}
use hash_map_storage_service.Tests.SkeletonTests.{waiting}

-- The number behind "node".
abbrev number : Text → ℤ
number (a ∷ b ∷ c ∷ d ∷ e ∷ s) = pos (e - 48)
number _ = pos 0

-- "node2" and "node1"
abbrev two : Text
two = 110 ∷ 111 ∷ 100 ∷ 101 ∷ 50 ∷ []

abbrev one : Text
one = 110 ∷ 111 ∷ 100 ∷ 101 ∷ 49 ∷ []

numbered : IsNumbered number (two ∷ one ∷ [])
unfolding id_of strtok skip token_of cut is_in atoi signed digits
numbered = (refl, (refl, tt))

-- "h:8"
abbrev pub address : Text
address = 104 ∷ 58 ∷ 56 ∷ []

address-HasHost : HasHost address (104 ∷ []) 20
unfolding strtok skip token_of cut is_in
address-HasHost = (refl, omega arith)

order_children-Found_example : Found number (two ∷ one ∷ [])
order_children-Found_example = order_children-Found number two (one ∷ []) numbered refl refl

table_skel_init-IsServer_example :
    (table_skel_init (answering (two ∷ one ∷ []) address) (56 ∷ []) minus_one address waiting
      ≡ ret (started minus_one waiting))
    × (s' : Server) × (table_skel_init
          (answering (two ∷ one ∷ []) address)
          (56 ∷ [])
          (pos 3)
          address
          waiting
        ≡ ret (started (pos 0) s'))
    × IsServer s' (new_table 3) [] (some none)
    × IsTable (new_table 3) (empty_rows 3)
    × (s'.queue.tail ≡ none)
    × (s'.store ≡ waiting.store)
table_skel_init-IsServer_example =
    table_skel_init-IsServer number (56 ∷ []) address (104 ∷ []) address (104 ∷ []) two (one ∷ [])
      waiting address-HasHost (omega arith) address-HasHost numbered refl refl minus_one refl 3
      (omega arith)
