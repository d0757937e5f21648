-- ===== src/Stub/Connect.antt =====
-- `rtable_connect` of source/client_stub.c.
use hash_map_storage_service.Prelude.{
  ◌≡◌, refl, true, false, ◌&&◌, Bool, none, some, ◌∷◌, ◌++◌, length, ltb, false, if◌then◌else◌,
  Option-cases, inl, inr,
}
use hash_map_storage_service.Prelude.Outcome.{ret, fault, ◌>>=◌}
use hash_map_storage_service.Prelude.Text.{Text}
use hash_map_storage_service.Stub.{Connecting, connect, network_connect, rtable_connect}
use hash_map_storage_service.Tokens.{colon, is_in, strcpy}
use hash_map_storage_service.Tokens.Words.{IsWord, strtok-word, strtok-last}

connect-connection : (c : Connecting) → connect c ≡ ret c.connection
unfolding connect network_connect
connect-connection c = elim (Option-cases c.connection) [
  | inl e ↦ rw e refl
  | inr (send, e) ↦ rw e refl
]

-- NULL is a fault, though the code tests for it later. For an address of a host and a port behind a
-- colon, if each has less than 20 bytes, the result is the connection that was made, NULL if there
-- is no socket or the address is refused. Otherwise the copy of one leaves its array.
pub rtable_connect-address :
    (c : Connecting) (host port : Text)
    → IsWord colon host
    → IsWord colon port
    → (rtable_connect c none ≡ fault)
      × (rtable_connect c (some (host ++ (58 ∷ port))) ≡ (
          if ltb (length host) 20 && ltb (length port) 20
          then ret (if c.made && c.address then c.connection else none)
          else fault))
unfolding rtable_connect is_in strcpy
rtable_connect-address c host port h p =
    let first = strtok-word colon host 58 port h refl in
    let last = strtok-last colon port p in
    (
      refl,
      rw first (
          rw last (
            rw (connect-connection c)
              (at_lengths (ltb (length host) 20) (ltb (length port) 20) (c.made && c.address)))),
    )
  where
    at_lengths :
        (a b made : Bool)
        → ((if a then ret host else fault) >>= λ _.
            (if b then ret port else fault) >>= λ _. if made then ret c.connection else ret none)
          ≡ (if a && b then ret (if made then c.connection else none) else fault)
    at_lengths true true true = refl
    at_lengths true true false = refl
    at_lengths true false made = refl
    at_lengths false b made = refl
