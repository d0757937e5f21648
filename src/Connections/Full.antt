-- ===== src/Connections/Full.antt =====
-- A full array of connections in source/network_server.c.
use hash_map_storage_service.Prelude.{
  ℕ, zero, suc, ◌+◌, ◌<◌, ◌≡◌, refl, ◌∙◌, ap, sym, true, false, Bool, List, [], ◌∷◌, ◌++◌, length,
  arith, ltb, append-nil, if◌then◌else◌,
}
use hash_map_storage_service.Prelude.Int.{ℤ, minus_one}
use hash_map_storage_service.Prelude.Outcome.{ret, fault, ◌>>=◌}
use hash_map_storage_service.Data.{Block}
use hash_map_storage_service.Skeleton.{Server}
use hash_map_storage_service.NetworkServer.{closed}
use hash_map_storage_service.Connections.{
  Pollfd, Slots, Loop, Handler, Round, poll, accept_new, hang_up, after_handle, visit, pass, round,
  network_main_loop,
}
use hash_map_storage_service.Connections.Shift.{get_elem?-append, snoc-append, length-snoc}
use hash_map_storage_service.Connections.Live.{loop, remove-full}
use hash_map_storage_service.Connections.Scan.{rest_of}
use hash_map_storage_service.Connections.Pass.{pass-go, pass-stop}

-- In a full array, a connection whose request cannot be read is taken out by reading behind the end
-- of the array.
pub pass-full_fault :
    (handle : Handler) (f : ℕ) (pre cs : Slots) (c : Pollfd) (s s' : Server)
    (out : List (ℤ × Block)) (bytes : Block)
    → c.pollin ≡ true
    → handle s c.fd ≡ ret (closed, s', bytes)
    → pass (suc f) handle (length pre) (loop pre (c ∷ cs) [] s out) ≡ fault
unfolding visit after_handle
pass-full_fault handle f pre cs c s s' out bytes ready gone =
    pass-go handle f (length pre) (loop pre (c ∷ cs) [] s out) c (omega arith)
      (get_elem?-append pre (cs ++ []) c)
    ∙ at_flag c.pollin ready
  where
    at_flag :
        (b : Bool)
        → b ≡ true
        → rest_of handle f (
            if b
            then (handle s c.fd >>= λ r. after_handle (length pre) (loop pre (c ∷ cs) [] s out) c r)
            else hang_up (length pre) (loop pre (c ∷ cs) [] s out) c)
          ≡ fault
    at_flag true e = unfold after_handle in rw gone (rw (remove-full pre cs c s' out) refl)
    at_flag false e = absurd (ground (arith, e))

-- All descriptors are -1.
abbrev pub IsMuted : Slots → Type 0
IsMuted [] = Unit
IsMuted (c ∷ cs) = (c.fd ≡ minus_one) × IsMuted cs

-- No flag is set either.
abbrev IsQuiet : Slots → Type 0
IsQuiet [] = Unit
IsQuiet (c ∷ cs) = (c.pollin ≡ false) × (c.pollhup ≡ false) × IsQuiet cs

visit-quiet :
    (handle : Handler) (i : ℕ) (l : Loop) (c : Pollfd)
    → c.pollin ≡ false
    → c.pollhup ≡ false
    → visit handle i l c ≡ ret (suc i, l)
unfolding visit hang_up
visit-quiet handle i l c no_data no_end = ground arith

pass-IsQuiet :
    (handle : Handler) (f : ℕ) (pre cs : Slots) (s : Server) (out : List (ℤ × Block))
    → length cs < f
    → IsQuiet cs
    → pass f handle (length pre) (loop pre cs [] s out) ≡ ret (loop pre cs [] s out)
pass-IsQuiet handle zero pre cs s out lt q = absurd (omega arith)
pass-IsQuiet handle (suc f) pre [] s out lt q =
    pass-stop handle f (length pre) (loop pre [] [] s out) (omega arith)
pass-IsQuiet handle (suc f) pre (c ∷ cs) s out lt (no_data, no_end, q) =
    let next : loop (pre ++ (c ∷ [])) cs [] s out ≡ loop pre (c ∷ cs) [] s out = same in
    pass-go handle f (length pre) (loop pre (c ∷ cs) [] s out) c (omega arith)
      (get_elem?-append pre (cs ++ []) c)
    ∙ ap (rest_of handle f)
        (visit-quiet handle (length pre) (loop pre (c ∷ cs) [] s out) c no_data no_end)
    ∙ ap (λ i. pass f handle i (loop pre (c ∷ cs) [] s out)) (sym (length-snoc pre c))
    ∙ ap (pass f handle (length (pre ++ (c ∷ [])))) (sym next)
    ∙ pass-IsQuiet handle f (pre ++ (c ∷ [])) cs s out (omega arith) q
    ∙ ap ret next
  where
    count : length (pre ++ (c ∷ [])) + length cs ≡ length pre + suc (length cs)
    count = omega (arith, length-snoc pre c)

    same : loop (pre ++ (c ∷ [])) cs [] s out ≡ loop pre (c ∷ cs) [] s out
    same = rw (snoc-append pre c (cs ++ []), count) refl

-- No flag is set for n connections from i on, as `poll` does for descriptors that are -1.
abbrev pub NoFlags : Round → ℕ → ℕ → Type 0
NoFlags r i zero = Unit
NoFlags r i (suc n) = (r.pollin i ≡ false) × (r.pollhup i ≡ false) × NoFlags r (suc i) n

abbrev pub AllNoFlags : List Round → ℕ → ℕ → Type 0
AllNoFlags [] i n = Unit
AllNoFlags (r ∷ rs) i n = NoFlags r i n × AllNoFlags rs i n

poll-IsMuted :
    (r : Round) (n i : ℕ) (cs : Slots)
    → length cs ≡ n
    → NoFlags r i n
    → IsMuted cs
    → IsQuiet (poll r n i (cs ++ []))
      × IsMuted (poll r n i (cs ++ []))
      × (length (poll r n i (cs ++ [])) ≡ n)
unfolding poll
poll-IsMuted r zero i [] e p m = (tt, tt, refl)
poll-IsMuted r (suc n) i [] e p m = absurd (omega arith)
poll-IsMuted r zero i (c ∷ cs) e p m = absurd (omega arith)
poll-IsMuted r (suc n) i (c ∷ cs) e (no_data, no_end, p) (e', m) =
    let (quiet, muted, size) = poll-IsMuted r n (suc i) cs (omega arith) p m in
    ((no_data, no_end, quiet), (e', muted), ap suc size)

accept-full :
    (r : Round) (c : Pollfd) (cs : Slots) (s : Server) (out : List (ℤ × Block))
    → length cs ≡ 19
    → accept_new r (loop (c ∷ []) cs [] s out) ≡ ret (loop (c ∷ []) cs [] s out)
unfolding accept_new
accept-full r c cs s out e =
    let full : ltb (1 + length cs) 20 ≡ false = ground arith in rw full (ground arith)

abbrev polled_loop : Round → Loop → Loop
polled_loop r l = record l { connections = poll r l.nfds 0 l.connections }

round-full :
    (r : Round) (c : Pollfd) (cs : Slots) (s : Server) (out : List (ℤ × Block))
    → length cs ≡ 19
    → IsMuted cs
    → NoFlags r 1 19
    → (c' : Pollfd) × (cs' : Slots) × (round r (loop (c ∷ []) cs [] s out)
        ≡ ret (loop (c' ∷ []) cs' [] s out))
      × (length cs' ≡ 19)
      × IsMuted cs'
unfolding round poll
round-full r c cs s out e m p =
    let (quiet, muted, size) = poll-IsMuted r 19 1 cs e p m in
    let c' = record c { pollin = r.pollin 0; pollhup = r.pollhup 0 } in
    let cs' = poll r 19 1 (cs ++ []) in
    let watched : 1 + length cs ≡ 20 = omega arith in
    let still : 1 + length cs' ≡ 20 = omega (arith, size) in
    let polled : polled_loop r (loop (c ∷ []) cs [] s out) ≡ loop (c' ∷ []) cs' [] s out =
      rw (watched, still) (rw (append-nil cs') refl) in
    (
      c',
      cs',
      ap (λ l. accept_new r l >>= λ l'. pass (suc l'.nfds) r.handle 1 l') polled
          ∙ rw (accept-full r c' cs' s out size) (
              pass-IsQuiet r.handle (suc (1 + length cs')) (c' ∷ []) cs' s out (omega arith) quiet),
      size,
      muted,
    )

-- Once all connections but the first are closed by failed requests, and there are 19 of them, if
-- `poll` sets no flag for a descriptor of -1, the array stays full of descriptors that are -1: in any number of rounds the server accepts no
-- connection, reads no request and sends nothing, whatever comes in on the listening socket.
pub network_main_loop-stuck :
    (rs : List Round) (c : Pollfd) (cs : Slots) (s : Server) (out : List (ℤ × Block))
    → length cs ≡ 19
    → IsMuted cs
    → AllNoFlags rs 1 19
    → (c' : Pollfd) × (cs' : Slots) × (network_main_loop rs (loop (c ∷ []) cs [] s out)
        ≡ ret (loop (c' ∷ []) cs' [] s out))
      × (length cs' ≡ 19)
      × IsMuted cs'
unfolding network_main_loop
network_main_loop-stuck [] c cs s out e m p = (c, cs, refl, e, m)
network_main_loop-stuck (r ∷ rs) c cs s out e m (p, ps) =
    let (c₁, cs₁, run, e₁, m₁) = round-full r c cs s out e m p in
    let (c₂, cs₂, runs, e₂, m₂) = network_main_loop-stuck rs c₁ cs₁ s out e₁ m₁ ps in
    (c₂, cs₂, rw run runs, e₂, m₂)
