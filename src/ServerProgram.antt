-- ===== src/ServerProgram.antt =====
-- The start of source/table-server.c: `network_server_init` of source/network_server.c, and what
-- follows when `table_skel_init` was refused.
--
-- What the system calls give comes in as an argument.
pub mod NoTable
use hash_map_storage_service.Prelude.{
  ℕ, ◌-◌, ◌%◌, Bool, true, false, not, Option, none, some, List, [], ◌∷◌, ◌==◌, if◌then◌else◌,
}
use hash_map_storage_service.Prelude.Int.{ℤ, pos, negsuc, minus_one, ltb_ℤ, eqb_ℤ}
use hash_map_storage_service.Prelude.Outcome.{Outcome, ret, ◌>>=◌}
use hash_map_storage_service.Prelude.Text.{Text}
use hash_map_storage_service.Data.{Block}
use hash_map_storage_service.Message.{MessageT}
use hash_map_storage_service.Socket.{Writes}
use hash_map_storage_service.Skeleton.{Server}
use hash_map_storage_service.Connections.{Round, start, network_main_loop}
use hash_map_storage_service.Tokens.{atoi}
use hash_map_storage_service.Startup.{ZooKeeper, Start, exited, started, table_skel_init}

-- What the calls for the welcoming socket give: the socket, and whether the others succeed, for
-- `bind` with the port.
pub record Listening : Type 0 where
  pub sock : ℤ
  pub options : Bool
  pub bound : ℕ → Bool
  pub listens : Bool

-- The port as a number of 16 bits.
abbrev pub port_bits : ℤ → ℕ
port_bits (pos n) = n % 65536
port_bits (negsuc n) = 65535 - n % 65536

unfoldable pub network_server_init : Listening → ℤ → ℤ
network_server_init c port =
    if ltb_ℤ c.sock (pos 0)
    then minus_one
    else if not c.options
    then minus_one
    else if not (c.bound (port_bits port))
    then minus_one
    else if not c.listens
    then minus_one
    else c.sock
