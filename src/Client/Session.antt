-- ===== src/Client/Session.antt =====
-- The loop of `main` in source/table-client.c on the commands of a user.
use hash_map_storage_service.Prelude.{
  ℕ, zero, suc, ◌<◌, ◌≤◌, ◌==◌, ◌≡◌, refl, ◌∙◌, ap, Bool, true, false, Option, none, some, List, [],
  ◌∷◌, ◌++◌, length, map, arith,
}
use hash_map_storage_service.Prelude.Outcome.{Outcome, ret, fault, out_of_fuel, ◌>>=◌, deref}
use hash_map_storage_service.Prelude.Text.{Text, text_eq}
use hash_map_storage_service.Data.{Block, Data, data_create2, c_string}
use hash_map_storage_service.Entry.{entry_create}
use hash_map_storage_service.Message.{Store}
use hash_map_storage_service.Prelude.Int.{pos}
use hash_map_storage_service.Tokens.{atoi, read_line, fgets}
use hash_map_storage_service.Stub.{
  Rtable, rtable_put, rtable_get, rtable_del, rtable_size, rtable_get_keys, rtable_verify,
}
use hash_map_storage_service.Client.{
  Client, client, Event, Round, size_is, keys_are, got, deleted, stored, verified, text_block,
  Peers, run_line, client_loop, quit_word, size_word, getkeys_word,
}
use hash_map_storage_service.Client.Commands.{
  Command, quit, size, getkeys, get, del, verify, put, IsCommand, print, perform, newline,
  run_line-print,
}

-- A command, and the connections when it is typed.
pub record Request : Type 0 where
  pub command : Command
  pub head : Rtable
  pub tail : Rtable

abbrev pub peers_of : Request → Peers
peers_of q = record { head = q.head; tail = q.tail }

-- The commands as they are typed, each with a newline.
abbrev pub typed : List Request → Text
typed [] = []
typed (q ∷ qs) = print q.command ++ (10 ∷ typed qs)

-- The word that the token is after the command.
abbrev pub last_word : Command → Text
last_word quit = quit_word
last_word size = size_word
last_word getkeys = getkeys_word
last_word (get key) = []
last_word (del key) = key
last_word (verify op) = op
last_word (put key value) = value

-- The command is `quit`, or a delete, a put or a check whose last word is "quit".
abbrev pub stops : Command → Bool
stops cmd = text_eq (last_word cmd) quit_word

-- No byte is a NUL or a newline.
abbrev pub IsTyped : Text → Type 0
IsTyped [] = Unit
IsTyped (c ∷ s) = (0 < c) × ((c == 10) ≡ false) × IsTyped s

abbrev pub AllCommands : List Request → Type 0
AllCommands [] = Unit
AllCommands (q ∷ qs) =
    IsCommand q.command
    × IsTyped (print q.command)
    × (length (print q.command) ≤ 2046)
    × AllCommands qs

-- The calls of the commands, up to the first one that stops.
unfoldable pub perform_all : List Request → Client → Outcome (Client × List Event)
perform_all [] c = ret (c, [])
perform_all (q ∷ qs) c = perform q.head q.tail c.store q.command >>= λ (d, e).
    elim (stops q.command) [
      | true ↦ ret (d, e ∷ [])
      | false ↦ perform_all qs d >>= λ (d', es). ret (d', e ∷ es)
    ]

-- If the round returns, the token is w.
abbrev HasToken : Text → Round → Type 0
HasToken w (ret (c, e)) = c.token ≡ w
HasToken w fault = Unit
HasToken w out_of_fuel = Unit

HasToken-bind {ℓ} :
    {A : Type ℓ} (w : Text) (o : Outcome (A × Store)) (event : A → Event)
    → HasToken w (o >>= λ (a, s). ret (client w s, event a))
HasToken-bind w (ret (a, s)) event = refl
HasToken-bind w fault event = tt
HasToken-bind w out_of_fuel event = tt

text-HasToken :
    (s : Store) (text : Outcome Text) → HasToken [] (text >>= λ t. ret (client [] s, got t))
text-HasToken s (ret t) = refl
text-HasToken s fault = tt
text-HasToken s out_of_fuel = tt

bytes-HasToken :
    (s : Store) (bytes : Option Block)
    → HasToken [] (deref bytes >>= λ b. c_string b >>= λ t. ret (client [] s, got t))
bytes-HasToken s none = tt
bytes-HasToken s (some b) = text-HasToken s (c_string b)

get-HasToken :
    (o : Outcome (Option Data × Store))
    → HasToken [] (
        o >>= λ (d, s).
        deref d >>= λ v. deref v.bytes >>= λ b. c_string b >>= λ t. ret (client [] s, got t))
get-HasToken (ret (none, s)) = tt
get-HasToken (ret (some v, s)) = bytes-HasToken s v.bytes
get-HasToken fault = tt
get-HasToken out_of_fuel = tt

perform-HasToken :
    (head tail : Rtable) (s : Store) (cmd : Command)
    → HasToken (last_word cmd) (perform head tail s cmd)
perform-HasToken head tail s quit = refl
perform-HasToken head tail s size = HasToken-bind size_word (rtable_size tail s) size_is
perform-HasToken head tail s getkeys = HasToken-bind getkeys_word (rtable_get_keys tail s) keys_are
perform-HasToken head tail s (get key) = get-HasToken (rtable_get tail s (some key))
perform-HasToken head tail s (del key) = HasToken-bind key (rtable_del head s (some key)) deleted
perform-HasToken head tail s (verify op) =
    HasToken-bind op (rtable_verify tail s (atoi op)) verified
perform-HasToken head tail s (put key value) =
    HasToken-bind value
      (rtable_put head s
        (entry_create (some key) (data_create2 (pos (length value)) (some (text_block value)))))
      stored

abbrev with_event : Event → Outcome (Client × List Event) → Outcome (Client × List Event)
with_event e o = o >>= λ (d, es). ret (d, e ∷ es)

abbrev after_round : List Peers → Text → Round → Outcome (Client × List Event)
after_round ps input o = o >>= λ (d, e). with_event e (client_loop ps input d)

read_line-newline :
    (n : ℕ) (t rest : Text)
    → IsTyped t
    → length t < n
    → read_line n (t ++ (10 ∷ rest)) ≡ (t ++ newline, rest)
unfolding read_line
read_line-newline zero t rest plain lt = absurd (omega arith)
read_line-newline (suc n) [] rest plain lt = refl
read_line-newline (suc n) (c ∷ t) rest (_, ne, plain) lt =
    rw (ne, read_line-newline n t rest plain (omega arith)) refl

fgets-line :
    (t rest : Text)
    → IsTyped t
    → length t ≤ 2046
    → fgets 2048 (t ++ (10 ∷ rest)) ≡ some (t ++ newline, rest)
unfolding fgets
fgets-line [] rest plain short = ap some (read_line-newline 2047 [] rest plain (omega arith))
fgets-line (c ∷ t) rest plain short =
    ap some (read_line-newline 2047 (c ∷ t) rest plain (omega arith))

client_loop-stop :
    (ps : List Peers) (input : Text) (c : Client)
    → text_eq c.token quit_word ≡ true
    → client_loop ps input c ≡ ret (c, [])
unfolding client_loop
client_loop-stop [] input c h = refl
client_loop-stop (p ∷ ps) input c h = ground (arith, h)

client_loop-more :
    (p : Peers) (ps : List Peers) (input line rest : Text) (c : Client)
    → text_eq c.token quit_word ≡ false
    → fgets 2048 input ≡ some (line, rest)
    → client_loop (p ∷ ps) input c ≡ after_round ps rest (run_line p.head p.tail c line)
unfolding client_loop
client_loop-more p ps input line rest c h read = ground (arith, h, read)

-- On commands whose arguments are words without blanks, NULs and newlines, typed with single blanks
-- and a newline, each in at most 2047 bytes, and with a token that is not "quit" at the start, the loop
-- makes the calls of these commands in turn. It ends at the first command whose last word is "quit", be
-- that a key, and reads no line behind it.
pub client_loop-perform_all :
    (qs : List Request) (c : Client)
    → AllCommands qs
    → text_eq c.token quit_word ≡ false
    → client_loop (map peers_of qs) (typed qs) c ≡ perform_all qs c
unfolding perform_all client_loop
client_loop-perform_all [] c a h = refl
client_loop-perform_all (q ∷ qs) c (v, plain, short, a) h =
    client_loop-more (peers_of q) (map peers_of qs) (typed (q ∷ qs)) (print q.command ++ newline)
      (typed qs) c h (fgets-line (print q.command) (typed qs) plain short)
    ∙ (ap (after_round (map peers_of qs) (typed qs)) (run_line-print q.head q.tail c q.command v)
        ∙ go (perform q.head q.tail c.store q.command) (stops q.command) refl
            (perform-HasToken q.head q.tail c.store q.command)
            (λ d. client_loop-perform_all qs d a))
  where
    go :
        (o : Round) (b : Bool)
        → stops q.command ≡ b
        → HasToken (last_word q.command) o
        → ((d : Client)
            → text_eq d.token quit_word ≡ false
            → client_loop (map peers_of qs) (typed qs) d ≡ perform_all qs d)
        → after_round (map peers_of qs) (typed qs) o ≡ (
            o >>= λ (d, e). elim b [
              | true ↦ ret (d, e ∷ [])
              | false ↦ with_event e (perform_all qs d)
            ])
    go (ret (d, e)) true s t ih =
        ap (with_event e)
          (client_loop-stop (map peers_of qs) (typed qs) d (ap (λ w. text_eq w quit_word) t ∙ s))
    go (ret (d, e)) false s t ih = ap (with_event e) (ih d (ap (λ w. text_eq w quit_word) t ∙ s))
    go fault b s t ih = refl
    go out_of_fuel b s t ih = refl
