-- ===== src/Startup/State.antt =====
-- The first state of the server in `table_skel_init` of source/table_skel.c.
use hash_map_storage_service.Prelude.{
  ℕ, ◌+◌, ◌<◌, ◌≡◌, refl, true, false, none, some, List, [], ◌∷◌, ◌++◌, length, arith,
  length-append,
}
use hash_map_storage_service.Prelude.Int.{ℤ, pos, minus_one, leb_ℤ, ltb_ℤ}
use hash_map_storage_service.Prelude.Outcome.{ret}
use hash_map_storage_service.Prelude.Text.{Text}
use hash_map_storage_service.Table.Rows.{IsTable}
use hash_map_storage_service.Table.Create.{new_table, empty_rows, table_create_lem}
use hash_map_storage_service.Fifo.{fifo_create}
use hash_map_storage_service.Skeleton.{Server}
use hash_map_storage_service.Skeleton.Enqueue.{IsServer}
use hash_map_storage_service.Tokens.{colon, strtok}
use hash_map_storage_service.Tokens.Words.{strcpy-room}
use hash_map_storage_service.Startup.{
  ZooKeeper, started, node_address, start_server, join_chain, table_skel_init,
}
use hash_map_storage_service.Startup.Order.{Numbering, IsNumbered}
use hash_map_storage_service.Startup.Extremes.{order_children-Found}

-- The bytes before the first colon are a host, and there is room for it in n bytes.
abbrev pub HasHost : Text → Text → ℕ → Type 0
HasHost address host n = ((strtok colon address).0 ≡ some host) × (length host < n)

-- A ZooKeeper that answers each call.
abbrev pub answering : List Text → Text → ZooKeeper
answering children stored = record {
  handle = true;
  connected = true;
  root_made = true;
  node_made = true;
  children = some children;
  stored = stored;
}

node_address-fits :
    (porta host_port host : Text)
    → HasHost host_port host 20
    → length host + length porta < 49
    → node_address host_port porta ≡ ret (host ++ (colon ++ porta))
unfolding node_address
node_address-fits porta host_port host (e, h) room = rw e (
    rw (strcpy-room 20 host h) (
      rw
        (strcpy-room 50 (host ++ (colon ++ porta))
          (omega (arith, length-append host (colon ++ porta))))
        refl))

pub refused_start :
    (n_lists : ℤ) (s : Server)
    → leb_ℤ n_lists (pos 0) ≡ true
    → start_server n_lists s ≡ (minus_one, s)
unfolding start_server
refused_start n_lists s le = let h : ltb_ℤ n_lists (pos 1) ≡ true = ground (arith, le) in rw h refl

-- The server after a start with n lists.
abbrev pub new_server : ℕ → Server → Server
new_server n s = record s {
  table = some (new_table n);
  last_assigned = 0;
  op_count = 0;
  queue = fifo_create;
}

pub new_start : (n : ℕ) (s : Server) → 0 < n → start_server (pos n) s ≡ (pos 0, new_server n s)
unfolding start_server
new_start n s lt =
    let h : ltb_ℤ (pos n) (pos 1) ≡ false = ground (arith, lt) in
    rw h (rw (table_create_lem.1 n lt).0 refl)

pub new_server-IsServer :
    (n : ℕ) (s : Server) → IsServer (new_server n s) (new_table n) [] (some none)
unfolding fifo_create
new_server-IsServer n s = record {
  table = refl;
  is_queue = record { chain = refl; count = refl; below = tt };
  numbers = refl;
}

-- If ZooKeeper answers each call, the hosts fit in their arrays, each child has a number, and that of
-- the first is from -1 to 99999999, then the start comes to its end. With less than one list the
-- result is -1 and the server stays as it is. With n lists the result is 0, and the server has a
-- sound table of n empty lists, an empty queue, and the numbers 0.
pub table_skel_init-IsServer :
    (num : Numbering) (porta host_port host stored own p : Text) (ps : List Text) (s : Server)
    → HasHost host_port host 20
    → length host + length porta < 49
    → HasHost stored own 20
    → IsNumbered num (p ∷ ps)
    → leb_ℤ (num p) (pos 99999999) ≡ true
    → leb_ℤ minus_one (num p) ≡ true
    → (n_lists : ℤ) → leb_ℤ n_lists (pos 0) ≡ true
    → (n : ℕ) → 0 < n
    → (table_skel_init (answering (p ∷ ps) stored) porta n_lists host_port s
        ≡ ret (started minus_one s))
      × (s' : Server) × (table_skel_init (answering (p ∷ ps) stored) porta (pos n) host_port s
          ≡ ret (started (pos 0) s'))
      × IsServer s' (new_table n) [] (some none)
      × IsTable (new_table n) (empty_rows n)
      × (s'.queue.tail ≡ none)
      × (s'.store ≡ s.store)
unfolding table_skel_init join_chain fifo_create
table_skel_init-IsServer num porta host_port host stored own p ps s h room h' ns hi lo n_lists le n
      lt =
    let found = order_children-Found num p ps ns hi lo in
    let address = node_address-fits porta host_port host h room in
    let copied = strcpy-room 20 own h'.1 in
    (
      rw address (rw found.run (rw h'.0 (rw copied (rw (refused_start n_lists s le) refl)))),
      new_server n s,
      rw address (rw found.run (rw h'.0 (rw copied (rw (new_start n s lt) refl)))),
      new_server-IsServer n s,
      (table_create_lem.1 n lt).1.0,
      refl,
      refl,
    )
