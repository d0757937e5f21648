-- ===== src/Startup.antt =====
-- `table_skel_init` of source/table_skel.c: the order of the servers, and the first state.
--
-- ZooKeeper and the sockets are parameters: what they give comes in. A call of `exit` ends in its
-- own outcome. `strtok` also ends the string behind the token, which changes no later token of it.
pub mod Order
pub mod Ranges
pub mod Extremes
pub mod State
use hash_map_storage_service.Prelude.{
  ℕ, zero, suc, ◌+◌, Bool, true, false, not, Option, none, some, List, [], ◌∷◌, ◌++◌, length, leb,
  ltb, if◌then◌else◌,
}
use hash_map_storage_service.Prelude.Int.{ℤ, pos, minus_one, ltb_ℤ, leb_ℤ}
use hash_map_storage_service.Prelude.Outcome.{Outcome, ret, fault, ◌>>=◌, deref}
use hash_map_storage_service.Prelude.Text.{Text}
use hash_map_storage_service.Table.{TableT, table_create}
use hash_map_storage_service.Fifo.{Fifo, fifo_create}
use hash_map_storage_service.Message.{Store}
use hash_map_storage_service.Skeleton.{Server}
use hash_map_storage_service.Tokens.{colon, strtok, atoi, strcpy}

-- "node"
abbrev pub node_chars : Text
node_chars = 110 ∷ 111 ∷ 100 ∷ 101 ∷ []

-- `atoi(strtok(path, "node"))`, a fault without a token
unfoldable pub id_of : Text → Outcome ℤ
id_of path = deref (strtok node_chars path).0 >>= λ token. ret (atoi token)

-- The least and the greatest number so far, with their paths; a path that was never set is `none`.
pub record Range : Type 0 where
  pub id_min : ℤ
  pub path_min : Option Text
  pub id_max : ℤ
  pub path_max : Option Text

abbrev pub no_range : Range
no_range = record { id_min = pos 99999999; path_min = none; id_max = minus_one; path_max = none }

lower : Text → ℤ → Range → Range
lower path n r = if leb_ℤ n r.id_min then record r { id_min = n; path_min = some path } else r

raise : Text → ℤ → Range → Range
raise path n r = if leb_ℤ r.id_max n then record r { id_max = n; path_max = some path } else r

unfoldable pub range_loop : List Text → Range → Outcome Range
unfolding lower raise
range_loop [] r = ret r
range_loop (path ∷ paths) r = id_of path >>= λ n. range_loop paths (raise path n (lower path n r))

-- The loop over j: the path at i is compared with each one behind it, and swapped with a smaller one.
unfoldable pub swap_loop : Text → List Text → Outcome (Text × List Text)
swap_loop path [] = ret (path, [])
swap_loop path (other ∷ others) = do
  n ← id_of path
  m ← id_of other
  elim (ltb_ℤ m n) [
    | true ↦ swap_loop other others >>= λ (first, rest). ret (first, path ∷ rest)
    | false ↦ swap_loop path others >>= λ (first, rest). ret (first, other ∷ rest)
  ]

-- The loop over i, with the number of paths that are left.
unfoldable pub order_loop : ℕ → List Text → Outcome (List Text)
order_loop zero paths = ret paths
order_loop (suc n) [] = fault
order_loop (suc n) (path ∷ paths) = do
  (first, rest) ← swap_loop path paths
  ordered ← order_loop n rest
  ret (first ∷ ordered)

-- The paths that are printed, and those in order.
unfoldable pub order_children : List Text → Outcome (Range × List Text)
order_children paths = do
  r ← range_loop paths no_range
  _ ← deref r.path_max
  _ ← deref r.path_min
  ordered ← order_loop (length paths) paths
  ret (r, ordered)

-- The address of the server: the host before the colon, and the port, in arrays of 20 and 50 bytes.
unfoldable pub node_address : Text → Text → Outcome Text
node_address host_port porta = do
  hostname ← strcpy 20 (strtok colon host_port).0
  address ← strcpy 50 (some (hostname ++ (colon ++ porta)))
  ret address

-- The last part, behind ZooKeeper. The locks and the thread are made.
unfoldable pub start_server : ℤ → Server → ℤ × Server
start_server n_lists s = if ltb_ℤ n_lists (pos 1) then (minus_one, s) else (
  pos 0,
  record s { table = table_create n_lists; last_assigned = 0; op_count = 0; queue = fifo_create },
)

-- What ZooKeeper gives: a handle, a connection, the successes of its calls, the children, and the
-- address that the buffer of `zoo_get` holds.
pub record ZooKeeper : Type 0 where
  pub handle : Bool
  pub connected : Bool
  pub root_made : Bool
  pub node_made : Bool
  pub children : Option (List Text)
  pub stored : Text

-- The result of the start; `exited` is a call of `exit`.
pub data Start : Type 0 where
  exited : Start
  started : ℤ → Server → Start

join_chain : ZooKeeper → Text → Text → Outcome Bool
join_chain z host_port porta =
    if not z.root_made
    then ret false
    else node_address host_port porta >>= λ _.
        if not z.node_made then ret false else elim z.children [
          | none ↦ ret false
          | some paths ↦
              order_children paths >>= λ _. strcpy 20 (strtok colon z.stored).0 >>= λ _. ret true
        ]

unfoldable pub table_skel_init : ZooKeeper → Text → ℤ → Text → Server → Outcome Start
unfolding join_chain
table_skel_init z porta n_lists host_port s =
    if not z.handle
    then ret exited
    else (if z.connected then join_chain z host_port porta else ret true) >>= λ joined.
        if joined then (let (r, s') = start_server n_lists s in ret (started r s')) else ret exited
