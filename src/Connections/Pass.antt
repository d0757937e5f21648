-- ===== src/Connections/Pass.antt =====
-- The loop over the connections in source/network_server.c, as one scan of a list.
use hash_map_storage_service.Prelude.{
  ℕ, zero, suc, ◌+◌, ◌≤◌, ◌<◌, ◌≡◌, refl, ◌∙◌, ap, sym, Bool, true, false, some, List, [], ◌∷◌,
  ◌++◌, length, take-append, length-append, append-nil, arith, if◌then◌else◌, get_elem?,
}
use hash_map_storage_service.Prelude.Int.{ℤ, minus_one}
use hash_map_storage_service.Prelude.Outcome.{Outcome, ret, fault, out_of_fuel, ◌>>=◌}
use hash_map_storage_service.Data.{Block}
use hash_map_storage_service.Skeleton.{Server}
use hash_map_storage_service.NetworkServer.{Handled, closed, muted, kept}
use hash_map_storage_service.Connections.{
  Pollfd, Slots, Loop, Handler, remove, hang_up, after_handle, visit, pass,
}
use hash_map_storage_service.Connections.Shift.{
  get_elem?-append, set-append, snoc-append, length-snoc,
}
use hash_map_storage_service.Connections.Live.{loop, remove-loop}
use hash_map_storage_service.Connections.Scan.{
  at_index, next_index, Scan, keep, scan, seen, report, rest_of, settle,
}

-- With f rounds, the loop over the connections cs behind pre, in an array that is not full, is a
-- scan of cs.
abbrev Refines : Handler → ℕ → Slots → Type 0
Refines handle f cs =
    (skip : Bool) (pre : Slots) (d : Pollfd) (post : Slots) (s : Server) (out : List (ℤ × Block))
    → seen (pass f handle (next_index skip pre) (loop pre cs (d ∷ post) s out))
      ≡ report pre (length pre + length cs + suc (length post)) (scan handle skip s out cs)

report-keep :
    (pre : Slots) (room : ℕ) (c : Pollfd) (o : Outcome Scan)
    → report (pre ++ (c ∷ [])) room o ≡ report pre room (keep c o)
report-keep pre room c (ret r) = rw (snoc-append pre c r.0, count) refl
  where
    count : length (pre ++ (c ∷ [])) + length r.0 ≡ length pre + suc (length r.0)
    count = omega (arith, length-snoc pre c)
report-keep pre room c fault = refl
report-keep pre room c out_of_fuel = refl

loop-snoc :
    (pre cs dead : Slots) (c : Pollfd) (s : Server) (out : List (ℤ × Block))
    → loop (pre ++ (c ∷ [])) cs dead s out ≡ loop pre (c ∷ cs) dead s out
loop-snoc pre cs dead c s out = rw (snoc-append pre c (cs ++ dead), count) refl
  where
    count : length (pre ++ (c ∷ [])) + length cs ≡ length pre + suc (length cs)
    count = omega (arith, length-snoc pre c)

pub pass-stop :
    (handle : Handler) (f i : ℕ) (l : Loop) → l.nfds ≤ i → pass (suc f) handle i l ≡ ret l
unfolding pass
pass-stop handle f i l le = ground arith

pub pass-go :
    (handle : Handler) (f i : ℕ) (l : Loop) (c : Pollfd)
    → i < l.nfds
    → get_elem? l.connections i ≡ some c
    → pass (suc f) handle i l ≡ rest_of handle f (visit handle i l c)
unfolding pass
pass-go handle f i l c lt e = ground (arith)

pass-end :
    (handle : Handler) (f i : ℕ) (pre : Slots) (d : Pollfd) (post : Slots) (s : Server)
    (out : List (ℤ × Block))
    → length pre ≤ i
    → seen (pass (suc f) handle i (loop pre [] (d ∷ post) s out))
      ≡ report pre (length pre + 0 + suc (length post)) (ret ([], s, out))
pass-end handle f i pre d post s out le =
    let none_left : length pre + 0 ≡ length pre = omega arith in
    ap seen (pass-stop handle f i (loop pre [] (d ∷ post) s out) (omega arith))
    ∙ rw (none_left, take-append pre (d ∷ post), append-nil pre, length-append pre (d ∷ post)) refl

module _ (handle : Handler) (f : ℕ) (cs : Slots) (ih : Refines handle f cs) where
  -- the connection stays as c
  go_on :
      (pre : Slots) (c d : Pollfd) (post : Slots) (s : Server) (out : List (ℤ × Block))
      → seen (pass f handle (suc (length pre)) (loop pre (c ∷ cs) (d ∷ post) s out))
        ≡ report pre
            (length pre + suc (length cs) + suc (length post))
            (keep c (scan handle false s out cs))
  go_on pre c d post s out =
      let room : length (pre ++ (c ∷ [])) + length cs + suc (length post)
          ≡ length pre + suc (length cs) + suc (length post) =
        omega (arith, length-snoc pre c) in
      ap (λ i. seen (pass f handle i (loop pre (c ∷ cs) (d ∷ post) s out)))
        (sym (length-snoc pre c))
      ∙ ap (λ l. seen (pass f handle (length (pre ++ (c ∷ []))) l))
          (sym (loop-snoc pre cs (d ∷ post) c s out))
      ∙ ih false (pre ++ (c ∷ [])) d post s out
      ∙ ap (λ n. report (pre ++ (c ∷ [])) n (scan handle false s out cs)) room
      ∙ report-keep pre _ c (scan handle false s out cs)

  -- the connection is taken out
  go_without :
      (skip : Bool) (pre : Slots) (c d : Pollfd) (post : Slots) (s : Server)
      (out : List (ℤ × Block))
      → seen (
          rest_of handle f (
            at_index
              (next_index skip pre)
              (remove (length pre) (loop pre (c ∷ cs) (d ∷ post) s out) c)))
        ≡ report pre (length pre + suc (length cs) + suc (length post)) (scan handle skip s out cs)
  go_without skip pre c d post s out =
      let (e, removed) = remove-loop pre cs post c d s out in
      rw removed (
        ih skip pre d (e ∷ post) s out
        ∙ ap (λ n. report pre n (scan handle skip s out cs)) (omega arith))

  hang_up-scan :
      (pre : Slots) (c d : Pollfd) (post : Slots) (s : Server) (out : List (ℤ × Block))
      → seen (rest_of handle f (hang_up (length pre) (loop pre (c ∷ cs) (d ∷ post) s out) c))
        ≡ report pre
            (length pre + suc (length cs) + suc (length post))
            (if c.pollhup then scan handle true s out cs else keep c (scan handle false s out cs))
  unfolding hang_up
  hang_up-scan pre c d post s out = at_flag c.pollhup
    where
      at_flag :
          (h : Bool)
          → seen (
              rest_of handle f (
                if h
                then at_index
                    (suc (length pre))
                    (remove (length pre) (loop pre (c ∷ cs) (d ∷ post) s out) c)
                else ret (suc (length pre), loop pre (c ∷ cs) (d ∷ post) s out)))
            ≡ report pre
                (length pre + suc (length cs) + suc (length post))
                (if h then scan handle true s out cs else keep c (scan handle false s out cs))
      at_flag true = go_without true pre c d post s out
      at_flag false = go_on pre c d post s out

  after_handle-scan :
      (pre : Slots) (c d : Pollfd) (post : Slots) (s : Server) (out : List (ℤ × Block))
      (o : Outcome (Handled × Server × Block))
      → seen (
          rest_of handle f
            (o >>= λ r. after_handle (length pre) (loop pre (c ∷ cs) (d ∷ post) s out) c r))
        ≡ report pre
            (length pre + suc (length cs) + suc (length post))
            (o >>= λ r. settle out c r (λ skip s' out'. scan handle skip s' out' cs))
  unfolding after_handle settle
  after_handle-scan pre c d post s out fault = refl
  after_handle-scan pre c d post s out out_of_fuel = refl
  after_handle-scan pre c d post s out (ret (closed, s', bytes)) =
      go_without false pre c d post s' out
  after_handle-scan pre c d post s out (ret (muted, s', bytes)) =
      let c' = record c { fd = minus_one } in
      rw (set-append pre (cs ++ (d ∷ post)) c c') (go_on pre c' d post s' out)
  after_handle-scan pre c d post s out (ret (kept, s', bytes)) =
      hang_up-scan pre c d post s' (out ++ (c.fd, bytes) ∷ [])

  visit-scan :
      (pre : Slots) (c d : Pollfd) (post : Slots) (s : Server) (out : List (ℤ × Block))
      → seen (rest_of handle f (visit handle (length pre) (loop pre (c ∷ cs) (d ∷ post) s out) c))
        ≡ report pre
            (length pre + suc (length cs) + suc (length post))
            (scan handle false s out (c ∷ cs))
  unfolding visit scan
  visit-scan pre c d post s out = at_flag c.pollin
    where
      at_flag :
          (b : Bool)
          → seen (
              rest_of handle f (
                if b
                then (handle s c.fd >>= λ r.
                    after_handle (length pre) (loop pre (c ∷ cs) (d ∷ post) s out) c r)
                else hang_up (length pre) (loop pre (c ∷ cs) (d ∷ post) s out) c))
            ≡ report pre (length pre + suc (length cs) + suc (length post)) (
                if b
                then (handle s c.fd >>= λ r.
                    settle out c r (λ skip s' out'. scan handle skip s' out' cs))
                else if c.pollhup
                then scan handle true s out cs
                else keep c (scan handle false s out cs))
      at_flag true = after_handle-scan pre c d post s out (handle s c.fd)
      at_flag false = hang_up-scan pre c d post s out

pass-Refines : (handle : Handler) (f : ℕ) (cs : Slots) → length cs < f → Refines handle f cs
unfolding scan
pass-Refines handle zero cs lt skip pre d post s out = absurd (omega arith)
pass-Refines handle (suc f) [] lt false pre d post s out =
    pass-end handle f (length pre) pre d post s out (omega arith)
pass-Refines handle (suc f) [] lt true pre d post s out =
    pass-end handle f (suc (length pre)) pre d post s out (omega arith)
pass-Refines handle (suc f) (c ∷ cs) lt true pre d post s out =
    go_on handle (suc f) cs (pass-Refines handle (suc f) cs (omega arith)) pre c d post s out
pass-Refines handle (suc f) (c ∷ cs) lt false pre d post s out =
    ap seen (
      pass-go handle f (length pre) (loop pre (c ∷ cs) (d ∷ post) s out) c (omega arith)
        (get_elem?-append pre (cs ++ (d ∷ post)) c))
    ∙ visit-scan handle f cs (pass-Refines handle f cs (omega arith)) pre c d post s out

-- As long as the array is not full, the loop over the connections ends with a round more than there
-- are connections, and is one scan of them: those that stay keep their order, and the room in the
-- array stays.
pub pass-scan :
    (handle : Handler) (f : ℕ) (cs : Slots) (skip : Bool) (pre : Slots) (d : Pollfd) (post : Slots)
    (s : Server) (out : List (ℤ × Block))
    → length cs < f
    → seen (pass f handle (next_index skip pre) (loop pre cs (d ∷ post) s out))
      ≡ report pre (length pre + length cs + suc (length post)) (scan handle skip s out cs)
pass-scan handle f cs skip pre d post s out lt = pass-Refines handle f cs lt skip pre d post s out
