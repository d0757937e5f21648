-- ===== src/Socket/ReadAll.antt =====
-- `read_all` of source/message.c when the bytes come.
use hash_map_storage_service.Prelude.{
  ℕ, zero, suc, ◌+◌, ◌-◌, ◌≤◌, ◌≡◌, refl, ◌∙◌, ap, sym, [], ◌∷◌, ◌++◌, length, false, arith,
  append-nil, append_assoc, length-append,
}
use hash_map_storage_service.Prelude.Int.{ℤ, pos}
use hash_map_storage_service.Prelude.Outcome.{ret}
use hash_map_storage_service.Data.{Block}
use hash_map_storage_service.Socket.{interrupted, failed, gave, Reads, read_loop, read_all}

-- The calls give the bytes of b in order, in any portions, with any interruptions, and then `rest`
-- is left.
abbrev pub Gives : Block → Reads → Reads → Type 0
Gives [] calls rest = calls ≡ rest
Gives (x ∷ b) [] rest = ⊥
Gives (x ∷ b) (interrupted ∷ calls) rest = Gives (x ∷ b) calls rest
Gives (x ∷ b) (failed e ∷ calls) rest = ⊥
Gives (x ∷ b) (gave [] ∷ calls) rest = ⊥
Gives (x ∷ b) (gave (y ∷ ys) ∷ calls) rest =
    (b' : Block) × (x ∷ b ≡ (y ∷ ys) ++ b') × Gives b' calls rest

pub read_loop-Gives :
    (size : ℤ) (b : Block) (calls rest : Reads) (n : ℕ) (out : Block)
    → length b ≤ n
    → Gives b calls rest
    → read_loop size calls false n out ≡ read_loop size rest false (n - length b) (out ++ b)
unfolding read_loop
read_loop-Gives size [] calls rest n out le g =
    rw g (rw (append-nil out) (ap (λ m. read_loop size rest false m out) (omega arith)))
read_loop-Gives size (x ∷ b) [] rest n out le g = absurd g
read_loop-Gives size (x ∷ b) (c ∷ calls) rest zero out le g = absurd (omega arith)
read_loop-Gives size (x ∷ b) (interrupted ∷ calls) rest (suc n) out le g =
    read_loop-Gives size (x ∷ b) calls rest (suc n) out le g
read_loop-Gives size (x ∷ b) (failed e ∷ calls) rest (suc n) out le g = absurd g
read_loop-Gives size (x ∷ b) (gave [] ∷ calls) rest (suc n) out le g = absurd g
read_loop-Gives size (x ∷ b) (gave (y ∷ ys) ∷ calls) rest (suc n) out le (b', e, g) =
    let count : length (x ∷ b) ≡ length (y ∷ ys) + length b' =
      ap length e ∙ length-append (y ∷ ys) b' in
    read_loop-Gives size b' calls rest (n - length ys) (out ++ (y ∷ ys)) (omega (arith, count)) g
    ∙ ap (λ m. read_loop size rest false m ((out ++ (y ∷ ys)) ++ b')) (omega (arith, count))
    ∙ ap (read_loop size rest false (suc n - length (x ∷ b)))
        (append_assoc out (y ∷ ys) b' ∙ ap (λ z. out ++ z) (sym e))

-- If the kernel gives n bytes, in any portions and with any interruptions, `read_all` of n bytes
-- returns n and stores those bytes in order, and leaves what comes behind them.
pub read_all-Gives :
    (b : Block) (calls rest : Reads)
    → Gives b calls rest
    → read_all calls (pos (length b)) ≡ ret (pos (length b), b, rest)
unfolding read_all read_loop
read_all-Gives b calls rest g =
    read_loop-Gives (pos (length b)) b calls rest (length b) [] (omega arith) g
    ∙ rw (none_left (length b)) refl
  where
    none_left : (n : ℕ) → n - n ≡ 0
    none_left n = omega arith
