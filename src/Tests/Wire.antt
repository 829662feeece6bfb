-- ===== src/Tests/Wire.antt =====
-- Integers with the most significant byte first, as tokio documents them, and text that is all kept.
use dtn7_rs.Prelude.{ℕ, ◌+◌, ◌*◌, ◌/◌, ◌%◌, ◌^◌, ◌<◌, ◌≡◌, Option, none, some, [], ◌∷◌, ◌++◌, arith}
use dtn7_rs.Cla.Tcp.Proto.{Bytes}
use dtn7_rs.Cla.Tcp.Wire.{Wire, Laws, Width, u16, u32, u64, modulus}

abbrev byte : ℕ → ℕ
byte n = n % 256

put : Width → ℕ → Bytes
put u16 v = byte (v / 256) ∷ byte v ∷ []
put u32 v = byte (v / 2 ^ 24) ∷ byte (v / 2 ^ 16) ∷ byte (v / 256) ∷ byte v ∷ []
put u64 v =
    byte (v / 2 ^ 56)
    ∷ byte (v / 2 ^ 48)
    ∷ byte (v / 2 ^ 40)
    ∷ byte (v / 2 ^ 32)
    ∷ byte (v / 2 ^ 24)
    ∷ byte (v / 2 ^ 16)
    ∷ byte (v / 256)
    ∷ byte v
    ∷ []

get : Width → Bytes → Option (ℕ × Bytes)
get u16 (a ∷ b ∷ s) = some (byte a * 256 + byte b, s)
get u32 (a ∷ b ∷ c ∷ d ∷ s) = some (byte a * 2 ^ 24 + byte b * 2 ^ 16 + byte c * 256 + byte d, s)
get u64 (a ∷ b ∷ c ∷ d ∷ e ∷ f ∷ g ∷ h ∷ s) = some (
  byte a * 2 ^ 56
      + byte b * 2 ^ 48
      + byte c * 2 ^ 40
      + byte d * 2 ^ 32
      + byte e * 2 ^ 24
      + byte f * 2 ^ 16
      + byte g * 256
      + byte h,
  s,
)
get _ _ = none

unfoldable pub wire : Wire
unfolding put get
wire = record { put = put; get = get; utf8_lossy = λ s. s }

get_put :
    (k : Width) (v : ℕ) (rest : Bytes) → v < modulus k → get k (put k v ++ rest) ≡ some (v, rest)
unfolding get put
get_put u16 v rest h = ground arith
get_put u32 v rest h = ground arith
get_put u64 v rest h = ground arith

get_fits : (k : Width) (s : Bytes) (v : ℕ) (rest : Bytes) → get k s ≡ some (v, rest) → v < modulus k
unfolding get
get_fits u16 (a ∷ b ∷ s) v rest h = ground arith
get_fits u32 (a ∷ b ∷ c ∷ d ∷ s) v rest h = ground arith
get_fits u64 (a ∷ b ∷ c ∷ d ∷ e ∷ f ∷ g ∷ i ∷ s) v rest h = ground arith
get_fits _ _ v rest h = ground arith

get_rest :
    (k : Width) (s : Bytes) (v : ℕ) (rest : Bytes)
    → get k s ≡ some (v, rest)
    → (front : Bytes) × (front ++ rest ≡ s)
unfolding get
get_rest u16 (a ∷ b ∷ s) v rest h = (a ∷ b ∷ [], ground arith)
get_rest u32 (a ∷ b ∷ c ∷ d ∷ s) v rest h = (a ∷ b ∷ c ∷ d ∷ [], ground arith)
get_rest u64 (a ∷ b ∷ c ∷ d ∷ e ∷ f ∷ g ∷ i ∷ s) v rest h =
    (a ∷ b ∷ c ∷ d ∷ e ∷ f ∷ g ∷ i ∷ [], ground arith)
get_rest _ _ v rest h = absurd (ground arith)

pub wire-Laws : Laws wire
unfolding wire
wire-Laws = record { get_put = get_put; get_fits = get_fits; get_rest = get_rest }
