-- ===== src/NetworkServer/Serve.antt =====
-- One request in `network_main_loop` of source/network_server.c.
use hash_map_storage_service.Prelude.{
  ℕ, ◌≡◌, refl, inl, inr, false, Option, some, [], length, arith,
}
use hash_map_storage_service.Prelude.Int.{ℤ, pos, negsuc, minus_one, eqb_ℤ}
use hash_map_storage_service.Prelude.Outcome.{ret, fault}
use hash_map_storage_service.Data.{Block, int_bytes}
use hash_map_storage_service.Message.{Message, MessageT, to_message_t, free_message}
use hash_map_storage_service.Message.Freed.{
  OwnsBlock, free_message-none, free_message-gone, free_message-cases,
}
use hash_map_storage_service.Socket.{Writes, write_all}
use hash_map_storage_service.Socket.WriteAll.{Takes}
use hash_map_storage_service.Skeleton.{Server, invoke}
use hash_map_storage_service.NetworkServer.{
  kept, muted, Traffic, is_bad, release, give_up, send_frame, network_send, answer, answer_or_mute,
  serve,
}
use hash_map_storage_service.NetworkServer.Frame.{frame, network_send-frame, not_negative}

module _ (pack : MessageT → Block) (traffic : Traffic) (sock : ℕ) (s s' : Server) (m m' : Message)
    (q : MessageT) (good : is_bad m ≡ false)
    (invoked : invoke traffic.junk s (some m) ≡ ret (pos 0, s', some m'))
    (packed : to_message_t s'.store.blocks m' ≡ ret q) where
  -- If `invoke` succeeds on a request and the kernel takes the answer in any portions, the answer
  -- goes out whole, its message is freed, and the connection stays.
  pub serve-answer :
      (calls rest : Writes) (h : ℕ → Option Block)
      → Takes 4 traffic.writes calls
      → Takes (length (pack q)) calls rest
      → free_message s'.store.blocks (some m') ≡ ret h
      → serve pack traffic (pos sock) s (some m)
        ≡ ret (kept, record s' { store = record s'.store { blocks = h } }, frame (pack q))
  unfolding serve answer_or_mute answer release
  serve-answer calls rest h first second freed = rw good (
      rw invoked (
        rw
          (network_send-frame pack s'.store m' q sock traffic.writes calls rest packed first second)
          (rw freed refl)))

  -- If `invoke` succeeds on a request and the first write of the answer fails, the message, if it
  -- owns a block, is freed twice.
  pub serve-failed_write_fault :
      (e a : ℕ) (out : Block) (calls : Writes)
      → write_all traffic.writes (int_bytes (length (pack q))) (pos 4) ≡ ret (negsuc e, out, calls)
      → OwnsBlock m' a
      → serve pack traffic (pos sock) s (some m) ≡ fault
  unfolding serve answer_or_mute answer release network_send send_frame give_up
  serve-failed_write_fault e a out calls failed owns =
      let not_four : eqb_ℤ (negsuc e) (pos 4) ≡ false = ground arith in
      rw good (
        rw invoked (
          rw (not_negative sock) (
            rw packed (
              rw failed (
                rw not_four (elim (free_message-cases s'.store.blocks m') [
                  | inl e ↦ rw e refl
                  | inr (g, e) ↦ rw e (
                      rw
                        (free_message-none g m' a owns
                          (free_message-gone s'.store.blocks g m' a owns e))
                        refl)
                ]))))))

-- If `invoke` refuses a request, its message is freed, nothing is sent, and the connection is muted.
pub serve-refused :
    (pack : MessageT → Block) (traffic : Traffic) (sock : ℤ) (s s' : Server) (m : Message)
    (m' : Option Message) (h : ℕ → Option Block)
    → is_bad m ≡ false
    → invoke traffic.junk s (some m) ≡ ret (minus_one, s', m')
    → free_message s'.store.blocks m' ≡ ret h
    → serve pack traffic sock s (some m)
      ≡ ret (muted, record s' { store = record s'.store { blocks = h } }, [])
unfolding serve answer_or_mute release
serve-refused pack traffic sock s s' m m' h good refused freed =
    rw good (rw refused (rw freed refl))

-- If `invoke` succeeds on a request, but its answer cannot be packed, the server faults.
pub serve-unpacked_fault :
    (pack : MessageT → Block) (traffic : Traffic) (sock : ℕ) (s s' : Server) (m m' : Message)
    → is_bad m ≡ false
    → invoke traffic.junk s (some m) ≡ ret (pos 0, s', some m')
    → to_message_t s'.store.blocks m' ≡ fault
    → serve pack traffic (pos sock) s (some m) ≡ fault
unfolding serve answer_or_mute answer network_send
serve-unpacked_fault pack traffic sock s s' m m' good invoked stuck =
    rw good (rw invoked (rw (not_negative sock) (rw stuck refl)))
