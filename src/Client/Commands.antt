-- ===== src/Client/Commands.antt =====
-- The commands of `main` in source/table-client.c, as they are typed and as they run.
use hash_map_storage_service.Prelude.{ℕ, ◌≡◌, refl, ◌∙◌, ap, some, [], ◌∷◌, ◌++◌, length}
use hash_map_storage_service.Prelude.Int.{pos}
use hash_map_storage_service.Prelude.Outcome.{ret, fault, ◌>>=◌, deref}
use hash_map_storage_service.Prelude.Text.{Text, text_eq}
use hash_map_storage_service.Data.{data_create2, c_string}
use hash_map_storage_service.Entry.{entry_create}
use hash_map_storage_service.Message.{Store}
use hash_map_storage_service.Stub.{
  Rtable, rtable_put, rtable_get, rtable_del, rtable_size, rtable_get_keys, rtable_verify,
}
use hash_map_storage_service.Tokens.{is_in, strtok, atoi}
use hash_map_storage_service.Tokens.Words.{IsWord, AllDelims, strtok-word, strtok-last, strtok-none}
use hash_map_storage_service.Client.{
  Client, client, Round, left, size_is, keys_are, got, deleted, stored, verified, chop, text_block,
  command, read_command, get_command, del_command, verify_command, put_command, put_data, run_line,
  space, quit_word, size_word, getkeys_word, get_word, del_word, put_word, verify_word,
}

-- What a user can ask for.
pub data Command : Type 0 where
  quit size getkeys : Command
  get del verify : Text → Command
  put : Text → Text → Command

-- The arguments are words.
abbrev pub IsCommand : Command → Type 0
IsCommand quit = Unit
IsCommand size = Unit
IsCommand getkeys = Unit
IsCommand (get key) = IsWord space key
IsCommand (del key) = IsWord space key
IsCommand (verify op) = IsWord space op
IsCommand (put key value) = IsWord space key × IsWord space value

-- The command as it is typed, with single blanks.
abbrev pub print : Command → Text
print quit = quit_word
print size = size_word
print getkeys = getkeys_word
print (get key) = get_word ++ (32 ∷ key)
print (del key) = del_word ++ (32 ∷ key)
print (verify op) = verify_word ++ (32 ∷ op)
print (put key value) = put_word ++ (32 ∷ (key ++ (32 ∷ value)))

-- The call that a command stands for, and the word that the token is then.
abbrev pub perform : Rtable → Rtable → Store → Command → Round
perform head tail s quit = ret (client quit_word s, left)
perform head tail s size = rtable_size tail s >>= λ (n, s'). ret (client size_word s', size_is n)
perform head tail s getkeys =
    rtable_get_keys tail s >>= λ (keys, s'). ret (client getkeys_word s', keys_are keys)
perform head tail s (get key) = rtable_get tail s (some key) >>= λ (d, s').
    deref d >>= λ v. deref v.bytes >>= λ b. c_string b >>= λ text. ret (client [] s', got text)
perform head tail s (del key) =
    rtable_del head s (some key) >>= λ (n, s'). ret (client key s', deleted n)
perform head tail s (verify op) =
    rtable_verify tail s (atoi op) >>= λ (n, s'). ret (client op s', verified n)
perform head tail s (put key value) =
    rtable_put head s
      (entry_create (some key) (data_create2 (pos (length value)) (some (text_block value))))
    >>= λ (n, s'). ret (client value s', stored n)

abbrev pub newline : Text
newline = 10 ∷ []

pub chop-append : (s : Text) (c : ℕ) → chop (s ++ (c ∷ [])) ≡ ret s
unfolding chop
chop-append [] c = refl
chop-append (b ∷ []) c = refl
chop-append (b ∷ d ∷ s) c = ap (λ o. o >>= λ t. ret (b ∷ t)) (chop-append (d ∷ s) c)

-- A line that starts with a byte other than the newline is split into its tokens.
run_line-read :
    (head tail : Rtable) (c : Client) (b : ℕ) (s : Text)
    → run_line head tail c ((b ∷ s) ++ newline)
      ≡ read_command head tail (strtok space (b ∷ s)) c.store
unfolding run_line text_eq
run_line-read head tail c b s = rw (chop-append (b ∷ s) 10) refl

-- A line of one word.
run_line-word :
    (head tail : Rtable) (c : Client) (b : ℕ) (s : Text)
    → IsWord space (b ∷ s)
    → run_line head tail c ((b ∷ s) ++ newline) ≡ command head tail (b ∷ s) [] c.store
unfolding read_command
run_line-word head tail c b s w =
    run_line-read head tail c b s
    ∙ ap (λ r. read_command head tail r c.store) (strtok-last space (b ∷ s) w)

-- A line of a word and more.
run_line-words :
    (head tail : Rtable) (c : Client) (b : ℕ) (s rest : Text)
    → IsWord space (b ∷ s)
    → run_line head tail c ((b ∷ s) ++ (32 ∷ rest) ++ newline)
      ≡ command head tail (b ∷ s) rest c.store
unfolding read_command is_in
run_line-words head tail c b s rest w =
    run_line-read head tail c b (s ++ (32 ∷ rest))
    ∙ ap (λ r. read_command head tail r c.store) (strtok-word space (b ∷ s) 32 rest w refl)

-- A command whose arguments are words without blanks, typed with single blanks and a newline, makes
-- the round call what the command stands for, with these arguments.
pub run_line-print :
    (head tail : Rtable) (c : Client) (cmd : Command)
    → IsCommand cmd
    → run_line head tail c (print cmd ++ newline) ≡ perform head tail c.store cmd
unfolding command get_command del_command verify_command put_command put_data is_in text_eq
run_line-print head tail c quit w =
    run_line-word head tail c 113 (117 ∷ 105 ∷ 116 ∷ []) (refl, (refl, (refl, (refl, tt))))
run_line-print head tail c size w =
    run_line-word head tail c 115 (105 ∷ 122 ∷ 101 ∷ []) (refl, (refl, (refl, (refl, tt))))
run_line-print head tail c getkeys w =
    run_line-word head tail c 103 (101 ∷ 116 ∷ 107 ∷ 101 ∷ 121 ∷ 115 ∷ [])
      (refl, (refl, (refl, (refl, (refl, (refl, (refl, tt)))))))
run_line-print head tail c (get key) w =
    run_line-words head tail c 103 (101 ∷ 116 ∷ []) key (refl, (refl, (refl, tt)))
    ∙ ap (λ r. get_command tail r.0 c.store) (strtok-last space key w)
run_line-print head tail c (del key) w =
    run_line-words head tail c 100 (101 ∷ 108 ∷ []) key (refl, (refl, (refl, tt)))
    ∙ ap (λ r. del_command head r.0 c.store) (strtok-last space key w)
run_line-print head tail c (verify op) w =
    run_line-words head tail c 118 (101 ∷ 114 ∷ 105 ∷ 102 ∷ 121 ∷ []) op
      (refl, (refl, (refl, (refl, (refl, (refl, tt))))))
    ∙ ap (λ r. verify_command tail r.0 c.store) (strtok-last space op w)
run_line-print head tail c (put key value) w =
    run_line-words head tail c 112 (117 ∷ 116 ∷ []) (key ++ (32 ∷ value)) (refl, (refl, (refl, tt)))
    ∙ (ap (λ r. put_command head r c.store) (strtok-word space key 32 value w.0 refl)
        ∙ ap (λ r. put_data head key r.0 c.store) (strtok-last space value w.1))

-- A line of blanks alone, at least one, has no token, and the test of the token is a fault.
pub run_line-blanks_fault :
    (head tail : Rtable) (c : Client) (s : Text)
    → AllDelims space (32 ∷ s)
    → run_line head tail c ((32 ∷ s) ++ newline) ≡ fault
unfolding read_command
run_line-blanks_fault head tail c s a =
    run_line-read head tail c 32 s
    ∙ ap (λ r. read_command head tail r c.store) (strtok-none space (32 ∷ s) a)
