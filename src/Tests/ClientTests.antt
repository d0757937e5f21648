-- ===== src/Tests/ClientTests.antt =====
-- Lines that are typed in source/table-client.c, and an address of source/client_stub.c.
use hash_map_storage_service.Prelude.{◌≡◌, refl, some, true, [], ◌∷◌, map, arith}
use hash_map_storage_service.Prelude.Text.{Text, text_eq}
use hash_map_storage_service.Stub.{Rtable, Connecting, received}
use hash_map_storage_service.Tokens.{is_in}
use hash_map_storage_service.Tokens.Words.{IsWord}
use hash_map_storage_service.Client.{Client, client, client_loop, space}
use hash_map_storage_service.Client.Commands.{print, Command, size, del, put, IsCommand}
use hash_map_storage_service.Client.Session.{
  IsTyped, Request, peers_of, typed, perform_all, client_loop-perform_all,
}
use hash_map_storage_service.Tests.MessageTests.{no_blocks}
use hash_map_storage_service.Tests.StubTests.{answer}

abbrev server : Rtable
server = some (λ q. received answer)

abbrev first_client : Client
first_client = client [] no_blocks

-- "put a b"
abbrev put_a : Command
put_a = put (97 ∷ []) (98 ∷ [])

put_a-IsCommand : IsCommand put_a
unfolding is_in
put_a-IsCommand = ((refl, tt), (refl, tt))

-- the key "quit"
abbrev quit_key : Text
quit_key = 113 ∷ 117 ∷ 105 ∷ 116 ∷ []

quit_key-IsWord : IsWord space quit_key
unfolding is_in
quit_key-IsWord = (refl, (refl, (refl, (refl, tt))))

abbrev ask_for : Command → Request
ask_for c = record { command = c; head = server; tail = server }

plain_put : IsTyped (print put_a)
plain_put = ground arith

plain_del : IsTyped (print (del quit_key))
plain_del = ground arith

plain_size : IsTyped (print size)
plain_size = ground arith

client_loop-perform_all_example :
    client_loop
      (map peers_of (ask_for put_a ∷ ask_for (del quit_key) ∷ ask_for size ∷ []))
      (typed (ask_for put_a ∷ ask_for (del quit_key) ∷ ask_for size ∷ []))
      first_client
    ≡ perform_all (ask_for put_a ∷ ask_for (del quit_key) ∷ ask_for size ∷ []) first_client
unfolding text_eq
client_loop-perform_all_example =
    client_loop-perform_all (ask_for put_a ∷ ask_for (del quit_key) ∷ ask_for size ∷ [])
      first_client
      (
        put_a-IsCommand,
        plain_put,
        omega arith,
        (quit_key-IsWord, plain_del, omega arith, (tt, plain_size, omega arith, tt)),
      )
      refl

abbrev connecting : Connecting
connecting = record { made = true; address = true; connection = server }
