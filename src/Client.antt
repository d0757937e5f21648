-- ===== src/Client.antt =====
-- The loop of `main` in source/table-client.c, and what it does with the connections at its end.
--
-- The two connections are set by a ZooKeeper thread, so they come in with each round. What the
-- program prints is an event; what the calls of source/client_stub.c print is left out. The end of
-- the input is not modelled: the loop waits there.
pub mod Commands
pub mod Session
use hash_map_storage_service.Prelude.{
  ℕ, Bool, true, false, Option, none, some, List, [], ◌∷◌, ◌++◌, length, if◌then◌else◌,
}
use hash_map_storage_service.Prelude.Int.{ℤ, pos, minus_one, eqb_ℤ}
use hash_map_storage_service.Prelude.Outcome.{Outcome, ret, fault, ◌>>=◌, deref}
use hash_map_storage_service.Prelude.Text.{Text, text_eq}
use hash_map_storage_service.Data.{Block, Data, data_create2, c_string}
use hash_map_storage_service.Entry.{entry_create}
use hash_map_storage_service.Message.{Store}
use hash_map_storage_service.Stub.{
  Rtable, rtable_put, rtable_get, rtable_del, rtable_size, rtable_get_keys, rtable_verify,
  rtable_disconnect,
}
use hash_map_storage_service.Tokens.{strtok, atoi, fgets}

-- The words of the commands, in ASCII, and the blank between them.
abbrev pub quit_word : Text
quit_word = 113 ∷ 117 ∷ 105 ∷ 116 ∷ []

abbrev pub size_word : Text
size_word = 115 ∷ 105 ∷ 122 ∷ 101 ∷ []

abbrev pub getkeys_word : Text
getkeys_word = 103 ∷ 101 ∷ 116 ∷ 107 ∷ 101 ∷ 121 ∷ 115 ∷ []

abbrev pub get_word : Text
get_word = 103 ∷ 101 ∷ 116 ∷ []

abbrev pub del_word : Text
del_word = 100 ∷ 101 ∷ 108 ∷ []

abbrev pub put_word : Text
put_word = 112 ∷ 117 ∷ 116 ∷ []

abbrev pub verify_word : Text
verify_word = 118 ∷ 101 ∷ 114 ∷ 105 ∷ 102 ∷ 121 ∷ []

abbrev pub space : Text
space = 32 ∷ []

-- `token`, by the text it points to, and the store of the client. On an empty line the token keeps
-- its bytes or becomes empty, which the test for "quit" does not tell apart.
pub record Client : Type 0 where
  pub token : Text
  pub store : Store

abbrev pub client : Text → Store → Client
client token store = record { token = token; store = store }

-- What a round of the loop prints or gets.
pub data Event : Type 0 where
  blank left unknown no_argument : Event
  size_is : ℤ → Event
  keys_are : Option (List Text) → Event
  got : Text → Event
  deleted stored verified : ℤ → Event

-- The new client and the event of a round.
abbrev pub Round : Type 0
Round = Outcome (Client × Event)

-- `s[strlen(s) - 1] = '\0'`, which leaves the array if s is empty
unfoldable pub chop : Text → Outcome Text
chop [] = fault
chop (c ∷ []) = ret []
chop (c ∷ d ∷ s) = chop (d ∷ s) >>= λ t. ret (c ∷ t)

-- The bytes of a C string with its NUL.
abbrev pub text_block : Text → Block
text_block [] = some 0 ∷ []
text_block (c ∷ s) = some c ∷ text_block s

no_more : Store → Round
no_more s = ret (client [] s, no_argument)

-- `get`: the data that came is read as a C string, a fault at NULL.
get_command : Rtable → Option Text → Store → Round
unfolding no_more
get_command tail none s = no_more s
get_command tail (some key) s = do
  (d, s') ← rtable_get tail s (some key)
  v ← deref d
  b ← deref v.bytes
  text ← c_string b
  ret (client [] s', got text)

del_command : Rtable → Option Text → Store → Round
unfolding no_more
del_command head none s = no_more s
del_command head (some key) s =
    rtable_del head s (some key) >>= λ (n, s'). ret (client key s', deleted n)

put_data : Rtable → Text → Option Text → Store → Round
unfolding no_more
put_data head key none s = no_more s
put_data head key (some value) s =
    rtable_put head s
      (entry_create (some key) (data_create2 (pos (length value)) (some (text_block value))))
    >>= λ (n, s'). ret (client value s', stored n)

put_command : Rtable → Option Text × Text → Store → Round
unfolding no_more put_data
put_command head (none, rest) s = no_more s
put_command head (some key, rest) s = put_data head key (strtok space rest).0 s

verify_command : Rtable → Option Text → Store → Round
unfolding no_more
verify_command tail none s = no_more s
verify_command tail (some op) s =
    rtable_verify tail s (atoi op) >>= λ (n, s'). ret (client op s', verified n)

-- The tests on the first token, with the line behind it.
command : Rtable → Rtable → Text → Text → Store → Round
unfolding get_command del_command put_command verify_command
command head tail token rest s =
    if text_eq token quit_word
    then ret (client token s, left)
    else if text_eq token size_word
    then (rtable_size tail s >>= λ (n, s'). ret (client token s', size_is n))
    else if text_eq token getkeys_word
    then (rtable_get_keys tail s >>= λ (keys, s'). ret (client token s', keys_are keys))
    else if text_eq token get_word
    then get_command tail (strtok space rest).0 s
    else if text_eq token del_word
    then del_command head (strtok space rest).0 s
    else if text_eq token put_word
    then put_command head (strtok space rest) s
    else if text_eq token verify_word
    then verify_command tail (strtok space rest).0 s
    else ret (client token s, unknown)

read_command : Rtable → Rtable → Option Text × Text → Store → Round
unfolding command
read_command head tail (token, rest) s = deref token >>= λ word. command head tail word rest s

unfoldable pub run_line : Rtable → Rtable → Client → Text → Round
unfolding read_command
run_line head tail c typed = chop typed >>= λ line.
    if text_eq line [] then ret (c, blank) else read_command head tail (strtok space line) c.store

-- The connections in a round.
pub record Peers : Type 0 where
  pub head : Rtable
  pub tail : Rtable

-- The rounds, on what is left of the input.
unfoldable pub client_loop : List Peers → Text → Client → Outcome (Client × List Event)
client_loop [] input c = ret (c, [])
client_loop (p ∷ ps) input c = elim (text_eq c.token quit_word) [
  | true ↦ ret (c, [])
  | false ↦ elim (fgets 2048 input) [
    | none ↦ ret (c, [])
    | some r ↦ do
      (d, e) ← run_line p.head p.tail c r.0
      (d', es) ← client_loop ps r.1 d
      ret (d', e ∷ es)
  ]
]

-- `rtable_disconnect(rtableHead) && rtable_disconnect(rtableTail)`, and whether the second is called.
unfoldable pub shut_down : Rtable → Rtable → Bool × Bool
shut_down head tail =
    if eqb_ℤ (rtable_disconnect head) (pos 0)
    then (false, false)
    else (if eqb_ℤ (rtable_disconnect tail) (pos 0) then (false, true) else (true, true))
