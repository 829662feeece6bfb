-- ===== src/Cla/Tcp/Sending/Chunks.antt =====
-- The chunks of a bundle, as the standard library's `chunks` cuts them.
use mathlib.Core.List.{append_assoc}
use dtn7_rs.Prelude.{
  ℕ, zero, suc, ◌+◌, ◌-◌, ◌≤◌, ◌<◌, ◌≡◌, refl, ap, ◌∙◌, List, [], ◌∷◌, ◌++◌, length, All, arith,
  length-append,
}
use dtn7_rs.Cla.Tcp.Proto.{Bytes}
use dtn7_rs.Cla.Tcp.Sending.{chunks, chunks_from}

abbrev pub joined : List Bytes → Bytes
joined [] = []
joined (c ∷ cs) = c ++ joined cs

-- The bytes that were not sent yet stay in order.
joined-chunks_from : (n room : ℕ) (cur bs : Bytes) → joined (chunks_from n room cur bs) ≡ cur ++ bs
unfolding chunks_from
joined-chunks_from n room [] [] = refl
joined-chunks_from n room (c ∷ cur) [] = refl
joined-chunks_from n zero cur (b ∷ bs) =
    ap (λ t. cur ++ t) (joined-chunks_from n (n - 1) (b ∷ []) bs)
joined-chunks_from n (suc room) cur (b ∷ bs) =
    joined-chunks_from n room (cur ++ b ∷ []) bs ∙ append_assoc cur (b ∷ []) bs

-- A chunk holds something, and at most `n` bytes.
abbrev pub IsChunk : ℕ → Bytes → Type 0
IsChunk n c = (0 < length c) × (length c ≤ n)

chunks_from-IsChunk :
    (n room : ℕ) (cur bs : Bytes)
    → 0 < n
    → length cur + room ≡ n
    → All (IsChunk n) (chunks_from n room cur bs)
unfolding chunks_from
chunks_from-IsChunk n room [] [] h e = tt
chunks_from-IsChunk n room (c ∷ cur) [] h e = ((omega arith, omega arith), tt)
chunks_from-IsChunk n zero cur (b ∷ bs) h e =
    ((omega arith, omega arith), chunks_from-IsChunk n (n - 1) (b ∷ []) bs h (omega arith))
chunks_from-IsChunk n (suc room) cur (b ∷ bs) h e =
    chunks_from-IsChunk n room (cur ++ b ∷ []) bs h (omega (arith, length-append cur (b ∷ [])))

pub joined-chunks : (n : ℕ) (bs : Bytes) → joined (chunks n bs) ≡ bs
unfolding chunks
joined-chunks n bs = joined-chunks_from n n [] bs

pub chunks-IsChunk : (n : ℕ) (bs : Bytes) → 0 < n → All (IsChunk n) (chunks n bs)
unfolding chunks
chunks-IsChunk n bs h = chunks_from-IsChunk n n [] bs h (omega arith)
