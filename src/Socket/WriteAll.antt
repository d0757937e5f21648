-- ===== src/Socket/WriteAll.antt =====
-- `write_all` of source/message.c when the kernel takes all bytes.
use hash_map_storage_service.Prelude.{
  ℕ, zero, suc, ◌-◌, ◌≤◌, ◌≡◌, refl, ◌∙◌, ap, [], ◌∷◌, ◌++◌, length, take, drop, arith, append-nil,
  append_assoc,
}
use hash_map_storage_service.Prelude.Int.{ℤ, pos}
use hash_map_storage_service.Prelude.Outcome.{ret}
use hash_map_storage_service.Data.{Block}
use hash_map_storage_service.Data.Dup.{length-drop}
use hash_map_storage_service.Socket.{interrupted, failed, gave, Writes, write_loop, write_all}

-- The calls take n bytes in all, in any portions, with any interruptions, and then `rest` is left.
abbrev pub Takes : ℕ → Writes → Writes → Type 0
Takes zero calls rest = calls ≡ rest
Takes (suc n) [] rest = ⊥
Takes (suc n) (interrupted ∷ calls) rest = Takes (suc n) calls rest
Takes (suc n) (failed e ∷ calls) rest = ⊥
Takes (suc n) (gave k ∷ calls) rest = (k ≤ suc n) × Takes (suc n - k) calls rest

abbrev no_bytes : Block
no_bytes = []

take-nil : (m : ℕ) → take m no_bytes ≡ no_bytes
take-nil zero = refl
take-nil (suc m) = refl

take-split : (k n : ℕ) (b : Block) → k ≤ n → take k b ++ take (n - k) (drop k b) ≡ take n b
take-split zero n b le = ap (λ m. take m b) (omega arith)
take-split (suc k) zero b le = absurd (omega arith)
take-split (suc k) (suc n) [] le = take-nil (suc n - suc k)
take-split (suc k) (suc n) (x ∷ b) le =
    ap (λ zs. x ∷ zs)
      (ap (λ m. take k b ++ take m (drop k b)) (omega arith) ∙ take-split k n b (omega arith))

write_loop_gave :
    (size : ℤ) (calls : Writes) (buf : Block) (n k : ℕ) (sent : Block)
    → suc n ≤ length buf
    → write_loop size (gave k ∷ calls) buf (suc n) sent
      ≡ write_loop size calls (drop k buf) (suc n - k) (sent ++ take k buf)
unfolding write_loop
write_loop_gave size calls buf n k sent le = ground arith

write_loop_lem :
    (size : ℤ) (calls rest : Writes) (buf : Block) (n : ℕ) (sent : Block)
    → Takes n calls rest
    → n ≤ length buf
    → write_loop size calls buf n sent ≡ ret (size, sent ++ take n buf, rest)
unfolding write_loop
write_loop_lem size calls rest buf zero sent t le = rw (t, append-nil sent) refl
write_loop_lem size [] rest buf (suc n) sent t le = absurd t
write_loop_lem size (interrupted ∷ calls) rest buf (suc n) sent t le =
    write_loop_lem size calls rest buf (suc n) sent t le
write_loop_lem size (failed e ∷ calls) rest buf (suc n) sent t le = absurd t
write_loop_lem size (gave k ∷ calls) rest buf (suc n) sent (small, t) le =
    write_loop_gave size calls buf n k sent le
    ∙ write_loop_lem size calls rest (drop k buf) (suc n - k) (sent ++ take k buf) t
        (omega (arith, length-drop k buf))
    ∙ ap (λ b. ret (size, b, rest))
        (append_assoc sent (take k buf) (take (suc n - k) (drop k buf))
          ∙ ap (λ b. sent ++ b) (take-split k (suc n) buf small))

-- If the kernel takes n bytes in all, in any portions and with any interruptions, `write_all` of n
-- bytes returns n and sends the first n bytes of the buffer in order.
pub write_all-Takes :
    (calls rest : Writes) (buf : Block) (n : ℕ)
    → Takes n calls rest
    → n ≤ length buf
    → write_all calls buf (pos n) ≡ ret (pos n, take n buf, rest)
unfolding write_all
write_all-Takes calls rest buf n t le = write_loop_lem (pos n) calls rest buf n [] t le
