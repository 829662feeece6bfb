-- ===== src/Cla/Tcp/Wire.antt =====
-- What the code of core/dtn7/src/cla/tcp/net.rs calls to read and write: bytes come off a stream or
-- reading fails. The integers of more than one byte are tokio's, and the repair of text that is not
-- UTF-8 is the standard library's: both are an interface.
use dtn7_rs.Prelude.{
  ℕ, zero, suc, Bool, true, false, ◌^◌, ◌<◌, ◌≡◌, refl, Option, none, some, [], ◌∷◌, ◌++◌, length,
  arith,
}
use dtn7_rs.Cla.Tcp.Proto.{Bytes}

-- `TcpClError`. `out_of_fuel` belongs to the model only.
pub data TcpClError : Type 0 where
  read_error : TcpClError
  unknown_packet_type : ℕ → TcpClError
  unknown_reason_code : ℕ → TcpClError
  session_extension_items_unsupported : TcpClError
  unexpected_packet : TcpClError
  invalid_magic : TcpClError
  unsupported_version : TcpClError
  malformed_transfer_extension : TcpClError
  segment_too_large : ℕ → TcpClError
  out_of_fuel : TcpClError

-- A value and the bytes behind it.
pub data Parsed (A : Type 0) : Type 0 where
  ok : A → Bytes → Parsed A
  fail : TcpClError → Parsed A

abbrev pub Read : Type 0 → Type 0
Read A = Bytes → Parsed A

abbrev pub pure : {A : Type 0} → A → Read A
pure a s = ok a s

abbrev pub bail : {A : Type 0} → TcpClError → Read A
bail e s = fail e

module _ {A B : Type 0} where
  abbrev pub proceed : Parsed A → (A → Read B) → Parsed B
  proceed (ok a s) f = f a s
  proceed (fail e) f = fail e

  infixl 5 ◌>>=◌
  abbrev pub ◌>>=◌ : Read A → (A → Read B) → Read B
  ◌>>=◌ m f s = proceed (m s) f

-- `?` on an option, with the error to return
abbrev pub known : {A : Type 0} → Option A → TcpClError → Read A
known none e s = fail e
known (some a) e s = ok a s

-- `if bad { return Err(e) }`
abbrev pub bail_if : Bool → TcpClError → Read (Unit {0})
bail_if true e s = fail e
bail_if false e s = ok tt s

pub data Width : Type 0 where
  u16 u32 u64 : Width

abbrev pub modulus : Width → ℕ
modulus u16 = 2 ^ 16
modulus u32 = 2 ^ 32
modulus u64 = 2 ^ 64

-- `write_u16` and the like, `read_u16` and the like, and `String::from_utf8_lossy`.
pub record Wire : Type 0 where
  pub put : Width → ℕ → Bytes
  pub get : Width → Bytes → Option (ℕ × Bytes)
  pub utf8_lossy : Bytes → Bytes

-- A number that fits comes back as it was written, what is read fits, and reading takes its bytes
-- off the front.
pub record Laws (w : Wire) : Type 0 where
  pub get_put :
      (k : Width) (v : ℕ) (rest : Bytes)
      → v < modulus k
      → w.get k (w.put k v ++ rest) ≡ some (v, rest)
  pub get_fits :
      (k : Width) (s : Bytes) (v : ℕ) (rest : Bytes) → w.get k s ≡ some (v, rest) → v < modulus k
  pub get_rest :
      (k : Width) (s : Bytes) (v : ℕ) (rest : Bytes)
      → w.get k s ≡ some (v, rest)
      → (front : Bytes) × (front ++ rest ≡ s)

abbrev pub read_u8 : Read ℕ
read_u8 [] = fail read_error
read_u8 (b ∷ s) = ok b s

abbrev given : Option (ℕ × Bytes) → Parsed ℕ
given none = fail read_error
given (some (v, s)) = ok v s

abbrev pub read_int : Wire → Width → Read ℕ
read_int w k s = given (w.get k s)

-- `read_exact` into a buffer of that many bytes
unfoldable pub read_exact : ℕ → Read Bytes
read_exact zero s = ok [] s
read_exact (suc n) [] = fail read_error
read_exact (suc n) (b ∷ s) = proceed (read_exact n s) (λ bs. pure (b ∷ bs))

pub read_exact-append : (xs rest : Bytes) → read_exact (length xs) (xs ++ rest) ≡ ok xs rest
unfolding read_exact
read_exact-append [] rest = refl
read_exact-append (x ∷ xs) rest = ground (arith, read_exact-append xs rest)

pub read_int-put :
    (w : Wire)
    → Laws w
    → (k : Width) (v : ℕ) (rest : Bytes) → v < modulus k
    → read_int w k (w.put k v ++ rest) ≡ ok v rest
read_int-put w laws k v rest h = rw (laws.get_put k v rest h)
