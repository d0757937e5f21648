-- ===== src/Tests/ConnectionsTests.antt =====
-- The loop of source/network_server.c with one connection, and with all places taken.
use hash_map_storage_service.Prelude.{
  ℕ, zero, suc, ◌≡◌, refl, false, true, [], ◌∷◌, length, replicate, arith, ◌==◌,
}
use hash_map_storage_service.Prelude.Int.{pos}
use hash_map_storage_service.Prelude.Outcome.{ret, fault}
use hash_map_storage_service.NetworkServer.{closed}
use hash_map_storage_service.Connections.{
  Pollfd, Slots, Handler, Round, unused, pass, network_main_loop,
}
use hash_map_storage_service.Connections.Live.{loop}
use hash_map_storage_service.Connections.Scan.{scan, seen, report}
use hash_map_storage_service.Connections.Pass.{pass-scan}
use hash_map_storage_service.Connections.Full.{
  IsMuted, NoFlags, pass-full_fault, network_main_loop-stuck,
}
use hash_map_storage_service.Tests.SkeletonTests.{waiting}

-- each peer has gone
abbrev gone : Handler
gone s fd = ret (closed, s, [])

abbrev listening : Pollfd
listening = record unused { fd = pos 3 }

abbrev ready : Pollfd
ready = record unused { fd = pos 4; pollin = true }

abbrev idle : Pollfd
idle = record unused { fd = pos 5 }

pass-scan_example :
    seen (pass 3 gone 1 (loop (listening ∷ []) (ready ∷ idle ∷ []) (unused ∷ []) waiting []))
    ≡ report (listening ∷ []) 4 (scan gone false waiting [] (ready ∷ idle ∷ []))
pass-scan_example =
    pass-scan gone 3 (ready ∷ idle ∷ []) false (listening ∷ []) unused [] waiting [] (omega arith)

-- twenty connections, of which the last is ready
pass-full_fault_example :
    pass 1 gone 19 (loop (replicate 19 listening) (ready ∷ []) [] waiting []) ≡ fault
pass-full_fault_example =
    pass-full_fault gone 0 (replicate 19 listening) [] ready waiting waiting [] [] refl refl

muted : (n : ℕ) → IsMuted (replicate n unused)
muted zero = tt
muted (suc n) = (refl, muted n)

-- no flag is set but that of the listening socket
abbrev quiet : Round
quiet = record {
  pollin = λ i. i == 0;
  pollhup = λ i. false;
  some_event = true;
  accepted = pos 9;
  handle = gone;
}

no_flags : (n i : ℕ) → NoFlags quiet (suc i) n
no_flags zero i = tt
no_flags (suc n) i = (ground arith, refl, no_flags n (suc i))

network_main_loop-stuck_example :
    (c' : Pollfd) × (cs' : Slots) × (network_main_loop
        (quiet ∷ quiet ∷ [])
        (loop (listening ∷ []) (replicate 19 unused) [] waiting [])
      ≡ ret (loop (c' ∷ []) cs' [] waiting []))
    × (length cs' ≡ 19)
    × IsMuted cs'
network_main_loop-stuck_example =
    network_main_loop-stuck (quiet ∷ quiet ∷ []) listening (replicate 19 unused) waiting [] refl
      (muted 19) (no_flags 19 0, (no_flags 19 0, tt))
