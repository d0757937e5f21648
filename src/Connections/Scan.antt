-- ===== src/Connections/Scan.antt =====
-- One scan of the list of connections, for the loop in source/network_server.c.
use hash_map_storage_service.Prelude.{
  ℕ, suc, ◌+◌, Bool, true, false, List, [], ◌∷◌, ◌++◌, length, if◌then◌else◌,
}
use hash_map_storage_service.Prelude.Int.{ℤ, minus_one}
use hash_map_storage_service.Prelude.Outcome.{Outcome, ret, ◌>>=◌}
use hash_map_storage_service.Data.{Block}
use hash_map_storage_service.Skeleton.{Server}
use hash_map_storage_service.NetworkServer.{Handled, closed, muted, kept}
use hash_map_storage_service.Connections.{Pollfd, Slots, Loop, Handler, Next, pass}
use hash_map_storage_service.Connections.Live.{View, view}

-- The connections that stay, the server, and what was sent.
abbrev pub Scan : Type 0
Scan = Slots × Server × List (ℤ × Block)

-- A connection that stays, before others.
abbrev pub keep : Pollfd → Outcome Scan → Outcome Scan
keep c o = o >>= λ r. ret (c ∷ r.0, r.1, r.2)

-- What follows for one connection, with the scan of those behind it.
unfoldable pub settle :
    List (ℤ × Block)
    → Pollfd
    → Handled × Server × Block
    → (Bool → Server → List (ℤ × Block) → Outcome Scan)
    → Outcome Scan
settle out c (closed, s, bytes) rest = rest false s out
settle out c (muted, s, bytes) rest = keep (record c { fd = minus_one }) (rest false s out)
settle out c (kept, s, bytes) rest =
    if c.pollhup
    then rest true s (out ++ (c.fd, bytes) ∷ [])
    else keep c (rest false s (out ++ (c.fd, bytes) ∷ []))

-- Each connection in turn. One that hung up goes, and the one behind it is not looked at.
unfoldable pub scan : Handler → Bool → Server → List (ℤ × Block) → Slots → Outcome Scan
scan handle skip s out [] = ret ([], s, out)
scan handle true s out (c ∷ cs) = keep c (scan handle false s out cs)
scan handle false s out (c ∷ cs) =
    if c.pollin
    then (handle s c.fd >>= λ r. settle out c r (λ skip s' out'. scan handle skip s' out' cs))
    else if c.pollhup
    then scan handle true s out cs
    else keep c (scan handle false s out cs)

-- What can be seen at the end of a pass.
abbrev pub seen : Outcome Loop → Outcome View
seen o = o >>= λ l. ret (view l)

-- What a scan of the connections behind pre comes to.
abbrev pub report : Slots → ℕ → Outcome Scan → Outcome View
report pre room o = o >>= λ r. ret (record {
  live = pre ++ r.0;
  count = length pre + length r.0;
  room = room;
  server = r.1;
  sent = r.2;
})

-- The rounds behind one step.
abbrev pub rest_of : Handler → ℕ → Outcome Next → Outcome Loop
rest_of handle f o = o >>= λ n. pass f handle n.0 n.1

abbrev pub at_index : ℕ → Outcome Loop → Outcome Next
at_index i o = o >>= λ l. ret (i, l)

abbrev pub next_index : Bool → Slots → ℕ
next_index false pre = length pre
next_index true pre = suc (length pre)
