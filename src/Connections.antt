-- ===== src/Connections.antt =====
-- The loop over the connections in `network_main_loop` of source/network_server.c.
--
-- What `poll` and `accept` give comes in with each round, and so does what is done with a connection
-- that has data (`handle` of NetworkServer.antt, for the traffic of the round). Signals and the
-- failure of `poll` only end the loop.
pub mod Shift
pub mod Live
pub mod Scan
pub mod Pass
pub mod Full
use hash_map_storage_service.Prelude.{
  ℕ, zero, suc, ◌+◌, ◌-◌, Bool, true, false, ◌&&◌, Option, none, some, List, [], ◌∷◌, ◌++◌, length,
  get_elem?, set, replicate, ltb, if◌then◌else◌,
}
use hash_map_storage_service.Prelude.Int.{ℤ, pos, minus_one, ltb_ℤ}
use hash_map_storage_service.Prelude.Outcome.{Outcome, ret, fault, out_of_fuel, ◌>>=◌, deref}
use hash_map_storage_service.Data.{Block}
use hash_map_storage_service.Skeleton.{Server}
use hash_map_storage_service.NetworkServer.{Handled, closed, muted, kept}

-- `struct pollfd`, of whose flags only POLLIN and POLLHUP are used.
pub record Pollfd : Type 0 where
  pub fd : ℤ
  pub events : Bool
  pub pollin : Bool
  pub pollhup : Bool

abbrev pub Slots : Type 0
Slots = List Pollfd

-- The array `connections`, `nfds`, the server, and the bytes that were sent, with their sockets.
pub record Loop : Type 0 where
  pub connections : Slots
  pub nfds : ℕ
  pub server : Server
  pub sent : List (ℤ × Block)

-- NFDESC
abbrev pub max_connections : ℕ
max_connections = 20

abbrev pub unused : Pollfd
unused = record { fd = minus_one; events = false; pollin = false; pollhup = false }

unfoldable pub start : ℤ → Server → Loop
start listening s = record {
  connections =
      set (replicate max_connections unused) 0 (record unused { fd = listening; events = true });
  nfds = 1;
  server = s;
  sent = [];
}

-- `for(int j = i; j < nfds; j++) connections[j] = connections[j+1];` for n rounds from j on
unfoldable pub shift : ℕ → ℕ → Slots → Outcome Slots
shift zero j cs = ret cs
shift (suc n) j cs = deref (get_elem? cs (suc j)) >>= λ c. shift n (suc j) (set cs j c)

-- The connection i is taken out.
unfoldable pub remove : ℕ → Loop → Pollfd → Outcome Loop
remove i l c = do
  cs ← shift (l.nfds - i) i (set l.connections i (record c { fd = minus_one }))
  ret (record l { connections = cs; nfds = l.nfds - 1 })

-- Each step ends with the next index.
abbrev pub Next : Type 0
Next = ℕ × Loop

-- `if(connections[i].revents & POLLHUP)`
hang_up : ℕ → Loop → Pollfd → Outcome Next
hang_up i l c = if c.pollhup then (remove i l c >>= λ l'. ret (suc i, l')) else ret (suc i, l)

after_handle : ℕ → Loop → Pollfd → Handled × Server × Block → Outcome Next
unfolding hang_up
after_handle i l c (closed, s, out) = remove i (record l { server = s }) c >>= λ l'. ret (i, l')
after_handle i l c (muted, s, out) = ret (
  suc i,
  record l { connections = set l.connections i (record c { fd = minus_one }); server = s },
)
after_handle i l c (kept, s, out) =
    hang_up i (record l { server = s; sent = l.sent ++ (c.fd, out) ∷ [] }) c

abbrev pub Handler : Type 0
Handler = Server → ℤ → Outcome (Handled × Server × Block)

-- The body of the loop over i.
pub visit : Handler → ℕ → Loop → Pollfd → Outcome Next
unfolding after_handle
visit handle i l c =
    if c.pollin then (handle l.server c.fd >>= λ r. after_handle i l c r) else hang_up i l c

-- The loop over i, on fuel.
unfoldable pub pass : ℕ → Handler → ℕ → Loop → Outcome Loop
unfolding visit
pass zero handle i l = out_of_fuel
pass (suc f) handle i l = elim (ltb i l.nfds) [
  | false ↦ ret l
  | true ↦ do
    c ← deref (get_elem? l.connections i)
    (i', l') ← visit handle i l c
    pass f handle i' l'
]

-- What one round gets: the flags that `poll` sets, whether there are any, what `accept` gives, and
-- what is done with a connection.
pub record Round : Type 0 where
  pub pollin : ℕ → Bool
  pub pollhup : ℕ → Bool
  pub some_event : Bool
  pub accepted : ℤ
  pub handle : Handler

-- The flags of the first n connections from i on are written.
unfoldable pub poll : Round → ℕ → ℕ → Slots → Slots
poll r zero i cs = cs
poll r (suc n) i [] = []
poll r (suc n) i (c ∷ cs) =
    record c { pollin = r.pollin i; pollhup = r.pollhup i } ∷ poll r n (suc i) cs

-- `connections[nfds].fd = accept(...)`
accept_at : ℤ → Loop → Outcome Loop
accept_at sock l = do
  c ← deref (get_elem? l.connections l.nfds)
  let c' = record c { fd = sock }
  if ltb_ℤ (pos 0) sock
      then ret (record l {
        connections = set l.connections l.nfds (record c' { events = true });
        nfds = l.nfds + 1;
      })
      else ret (record l { connections = set l.connections l.nfds c' })

accept_new : Round → Loop → Outcome Loop
unfolding accept_at
accept_new r l = deref (get_elem? l.connections 0) >>= λ c.
    if r.some_event && (c.pollin && ltb l.nfds max_connections)
    then accept_at r.accepted l
    else ret l

-- One round of the inner loop; it has a unit of fuel more than there are connections.
unfoldable pub round : Round → Loop → Outcome Loop
unfolding accept_new
round r l = do
  l' ← accept_new r (record l { connections = poll r l.nfds 0 l.connections })
  pass (suc l'.nfds) r.handle 1 l'

unfoldable pub network_main_loop : List Round → Loop → Outcome Loop
network_main_loop [] l = ret l
network_main_loop (r ∷ rs) l = round r l >>= λ l'. network_main_loop rs l'
