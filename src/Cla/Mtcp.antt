-- ===== src/Cla/Mtcp.antt =====
-- The framing of core/dtn7/src/cla/mtcp.rs: bundles as CBOR byte strings on a stream. The crate
-- `serde_cbor` is an interface.
pub mod Framing
use dtn7_rs.Prelude.{
  ℕ, zero, suc, ◌+◌, ◌-◌, ◌*◌, ◌/◌, ◌%◌, ◌^◌, Bool, true, false, not, Option, none, some, List, [],
  ◌∷◌, ◌++◌, length, ltb, leb, ◌==◌, nat_eq, if◌then◌else◌,
}
use dtn7_rs.Cla.Tcp.Proto.{Bytes}

pub data CborByteString : Type 0 where
  len : ℕ → CborByteString
  u8 u16 u32 u64 not_a_string : CborByteString

-- The masks are the upper three bits and the lower five of a byte.
unfoldable pub cbor_parse_byte_string_len_first : ℕ → CborByteString
cbor_parse_byte_string_len_first input =
    let number = input % 32 in
    if not (input / 32 == 2)
    then not_a_string
    else if ltb number 24
    then len number
    else if number == 24
    then u8
    else if number == 25
    then u16
    else if number == 26
    then u32
    else if number == 27
    then u64
    else not_a_string

abbrev hdr_len : CborByteString → ℕ
hdr_len (len _) = 1
hdr_len u8 = 2
hdr_len u16 = 3
hdr_len u32 = 5
hdr_len u64 = 9
hdr_len not_a_string = 0

unfoldable pub cbor_hdr_len : ℕ → ℕ
cbor_hdr_len input = hdr_len (cbor_parse_byte_string_len_first input)

-- An index into a slice that is long enough, as the caller sees to.
unfoldable pub index : Bytes → ℕ → ℕ
index [] i = 0
index (b ∷ bs) zero = b
index (b ∷ bs) (suc i) = index bs i

-- A shift and a sum of u64 that do not overflow for bytes.
abbrev string_len : CborByteString → Bytes → ℕ
string_len (len n) input = n
string_len u8 input = index input 1
string_len u16 input = index input 1 * 2 ^ 8 + index input 2
string_len u32 input =
    index input 1 * 2 ^ 24 + index input 2 * 2 ^ 16 + index input 3 * 2 ^ 8 + index input 4
string_len u64 input =
    index input 1 * 2 ^ 56
    + index input 2 * 2 ^ 48
    + index input 3 * 2 ^ 40
    + index input 4 * 2 ^ 32
    + index input 5 * 2 ^ 24
    + index input 6 * 2 ^ 16
    + index input 7 * 2 ^ 8
    + index input 8
string_len not_a_string input = 0

unfoldable pub cbor_parse_byte_string_len : Bytes → ℕ
cbor_parse_byte_string_len input =
    string_len (cbor_parse_byte_string_len_first (index input 0)) input

-- The first bytes, and what is behind them (`&buf[0..n]`, `advance`).
unfoldable pub take : ℕ → Bytes → Bytes
take zero s = []
take (suc n) [] = []
take (suc n) (b ∷ s) = b ∷ take n s

unfoldable pub drop : ℕ → Bytes → Bytes
drop zero s = s
drop (suc n) [] = []
drop (suc n) (b ∷ s) = drop n s

-- `serde_cbor::to_vec` and `from_slice` of an `MPDU`, which is the bytes of a bundle.
pub record Serde : Type 0 where
  pub to_vec : Bytes → Bytes
  pub from_slice : Bytes → Option Bytes

-- The messages of `io::ErrorKind::InvalidData`.
pub data DecodeError : Type 0 where
  invalid_length terminator_not_found decoding_error position_overflow : DecodeError

pub data Decoded : Type 0 where
  waiting : Decoded
  item : Bytes → Decoded
  invalid : DecodeError → Decoded

module _ (serde : Serde) where
  -- `encode`: what is written behind `dst`.
  unfoldable pub encode : Bytes → Bytes → Bytes
  encode mpdu dst = dst ++ serde.to_vec mpdu

  abbrev deserialized : ℕ → Bytes → Option Bytes → Decoded × Bytes
  deserialized size buf none = (invalid decoding_error, buf)
  deserialized size buf (some mpdu) = (item mpdu, drop size buf)

  -- With the size of the MPDU, which is one more than the position of its last byte.
  abbrev decode_sized : ℕ → Bytes → Decoded × Bytes
  decode_sized size buf =
      if not (ltb (size - 1) (length buf))
      then (waiting, buf)
      else if not (index buf (size - 1) == 255)
      then (invalid terminator_not_found, buf)
      else deserialized size buf (serde.from_slice (take size buf))

  -- `decode`, with what is left in the buffer. The sum is checked against a usize of 64 bits; it
  -- is not zero, as the header is not empty.
  unfoldable pub decode : Bytes → Decoded × Bytes
  decode buf =
      let header = cbor_hdr_len (index buf 0) in
      let size = header + cbor_parse_byte_string_len (take 10 buf) in
      if ltb (length buf) 10
      then (waiting, buf)
      else if header == 0
      then (invalid invalid_length, buf)
      else if leb (2 ^ 64) size
      then (invalid position_overflow, buf)
      else decode_sized size buf
