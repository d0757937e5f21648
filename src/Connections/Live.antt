-- ===== src/Connections/Live.antt =====
-- The connections that the loop of source/network_server.c watches, as a list.
use hash_map_storage_service.Prelude.{
  ℕ, suc, ◌+◌, ◌-◌, ◌≡◌, refl, ◌∙◌, ap, sym, List, [], ◌∷◌, ◌++◌, length, take, arith, append-nil,
}
use hash_map_storage_service.Prelude.Int.{ℤ, minus_one}
use hash_map_storage_service.Prelude.Outcome.{ret, fault}
use hash_map_storage_service.Data.{Block}
use hash_map_storage_service.Skeleton.{Server}
use hash_map_storage_service.Connections.{Pollfd, Slots, Loop, shift, remove}
use hash_map_storage_service.Connections.Shift.{
  last_of, shift-append, shift-end, set-append, length-snoc, snoc-append,
}

-- What can be seen of a loop: the watched connections, their number, the room in the array, the
-- server, and what was sent.
pub record View : Type 0 where
  pub live : Slots
  pub count : ℕ
  pub room : ℕ
  pub server : Server
  pub sent : List (ℤ × Block)

abbrev pub view : Loop → View
view l = record {
  live = take l.nfds l.connections;
  count = l.nfds;
  room = length l.connections;
  server = l.server;
  sent = l.sent;
}

-- A loop that watches pre and cs, with dead elements behind them.
abbrev pub loop : Slots → Slots → Slots → Server → List (ℤ × Block) → Loop
loop pre cs dead s out = record {
  connections = pre ++ (cs ++ dead);
  nfds = length pre + length cs;
  server = s;
  sent = out;
}

rounds : (a b : ℕ) → a + suc b - a ≡ suc b
rounds a b = omega arith

left : (a b : ℕ) → a + suc b - 1 ≡ a + b
left a b = omega arith

shift-snoc :
    (pre cs post : Slots) (x d : Pollfd)
    → shift (suc (length cs)) (length pre) (pre ++ (x ∷ (cs ++ (d ∷ post))))
      ≡ ret (pre ++ (cs ++ (d ∷ (last_of x (cs ++ (d ∷ [])) ∷ post))))
shift-snoc pre cs post x d =
    ap (λ n. shift n (length pre) (pre ++ (x ∷ (cs ++ (d ∷ post))))) (sym (length-snoc cs d))
    ∙ ap (λ zs. shift (length (cs ++ (d ∷ []))) (length pre) (pre ++ (x ∷ zs)))
        (sym (snoc-append cs d post))
    ∙ shift-append pre (cs ++ (d ∷ [])) post x
    ∙ ap (λ zs. ret (pre ++ zs)) (snoc-append cs d (last_of x (cs ++ (d ∷ [])) ∷ post))

-- Taking out the connection behind pre leaves the others in order, as long as the array is not full.
pub remove-loop :
    (pre cs post : Slots) (c d : Pollfd) (s : Server) (out : List (ℤ × Block))
    → (e : Pollfd) × (remove (length pre) (loop pre (c ∷ cs) (d ∷ post) s out) c
        ≡ ret (loop pre cs (d ∷ (e ∷ post)) s out))
unfolding remove
remove-loop pre cs post c d s out =
    let gone = record c { fd = minus_one } in
    (
      last_of gone (cs ++ (d ∷ [])),
      rw (set-append pre (cs ++ (d ∷ post)) c gone, rounds (length pre) (length cs))
          (rw (shift-snoc pre cs post gone d, left (length pre) (length cs)) refl),
    )

-- In a full array it reads behind the end.
pub remove-full :
    (pre cs : Slots) (c : Pollfd) (s : Server) (out : List (ℤ × Block))
    → remove (length pre) (loop pre (c ∷ cs) [] s out) c ≡ fault
unfolding remove
remove-full pre cs c s out =
    let gone = record c { fd = minus_one } in
    let whole : cs ++ [] ≡ cs = append-nil cs in
    rw (whole) (
      rw (set-append pre cs c gone, rounds (length pre) (length cs))
        (rw (shift-end pre cs gone) refl))
