-- ===== src/Cla/Mtcp/Framing.antt =====
-- MPDUs on a stream, however it is cut: core/dtn7/src/cla/mtcp.rs.
use mathlib.Core.List.{append_assoc, append-nil}
use dtn7_rs.Prelude.{
  ℕ, zero, suc, ◌+◌, ◌-◌, ◌/◌, ◌%◌, ◌^◌, ◌≤◌, ◌<◌, ◌≡◌, refl, sym, ap, ◌∙◌, some, [], ◌∷◌, ◌++◌,
  length, length-append, ltb, nat_eq, if◌then◌else◌, arith, Bool-cases, inl, inr,
}
use dtn7_rs.Cla.Tcp.Proto.{Bytes}
use dtn7_rs.Cla.Mtcp.{
  cbor_parse_byte_string_len_first, cbor_hdr_len, index, cbor_parse_byte_string_len, take, drop,
  Serde, waiting, item, encode, decode,
}

abbrev byte : ℕ → ℕ
byte n = n % 256

-- The head of a CBOR byte string of a length, in its shortest form.
unfoldable pub head : ℕ → Bytes
head n =
    if ltb n 24
    then (64 + n) ∷ []
    else if ltb n (2 ^ 8)
    then 88 ∷ n ∷ []
    else if ltb n (2 ^ 16)
    then 89 ∷ byte (n / 2 ^ 8) ∷ byte n ∷ []
    else if ltb n (2 ^ 32)
    then 90 ∷ byte (n / 2 ^ 24) ∷ byte (n / 2 ^ 16) ∷ byte (n / 2 ^ 8) ∷ byte n ∷ []
    else 91
      ∷ byte (n / 2 ^ 56)
      ∷ byte (n / 2 ^ 48)
      ∷ byte (n / 2 ^ 40)
      ∷ byte (n / 2 ^ 32)
      ∷ byte (n / 2 ^ 24)
      ∷ byte (n / 2 ^ 16)
      ∷ byte (n / 2 ^ 8)
      ∷ byte n
      ∷ []

-- What CBOR says of byte strings.
pub record Laws (serde : Serde) : Type 0 where
  pub to_vec_lem : (b : Bytes) → serde.to_vec b ≡ head (length b) ++ b
  pub from_slice-to_vec : (b : Bytes) → serde.from_slice (serde.to_vec b) ≡ some b

pub head-length : (n : ℕ) (s : Bytes) → cbor_hdr_len (index (head n ++ s) 0) ≡ length (head n)
unfolding head cbor_hdr_len cbor_parse_byte_string_len_first index
head-length n s = ground arith

head-len : (n : ℕ) (s : Bytes) → n < 2 ^ 64 → cbor_parse_byte_string_len (take 10 (head n ++ s)) ≡ n
unfolding head cbor_parse_byte_string_len cbor_parse_byte_string_len_first index take
head-len n s h = ground arith

index-append_left : (i : ℕ) (xs ys : Bytes) → i < length xs → index (xs ++ ys) i ≡ index xs i
unfolding index
index-append_left i [] ys h = absurd (omega (arith, h))
index-append_left zero (x ∷ xs) ys h = refl
index-append_left (suc i) (x ∷ xs) ys h = index-append_left i xs ys (omega (arith, h))

index-append_right : (xs ys : Bytes) (i : ℕ) → index (xs ++ ys) (length xs + i) ≡ index ys i
unfolding index
index-append_right [] ys i = ap (index ys) (omega arith)
index-append_right (x ∷ xs) ys i =
    let shifted : length (x ∷ xs) + i ≡ suc (length xs + i) = omega arith in
    rw shifted (index-append_right xs ys i)

take-append_left : (k : ℕ) (xs ys : Bytes) → k ≤ length xs → take k (xs ++ ys) ≡ take k xs
unfolding take
take-append_left zero xs ys h = refl
take-append_left (suc k) [] ys h = absurd (omega (arith, h))
take-append_left (suc k) (x ∷ xs) ys h =
    ap (λ s. x ∷ s) (take-append_left k xs ys (omega (arith, h)))

take-length : (xs ys : Bytes) → take (length xs) (xs ++ ys) ≡ xs
unfolding take
take-length [] ys = refl
take-length (x ∷ xs) ys = ap (λ s. x ∷ s) (take-length xs ys)

pub drop-length : (xs ys : Bytes) → drop (length xs) (xs ++ ys) ≡ ys
unfolding drop
drop-length [] ys = refl
drop-length (x ∷ xs) ys = drop-length xs ys

head-small : (n : ℕ) → (0 < length (head n)) × (length (head n) ≤ 9)
unfolding head
head-small n = (ground arith, ground arith)

module _ (serde : Serde) (laws : Laws serde) (b : Bytes) where
  -- A bundle that ends with a break, as bundles do, and is addressed with 64 bits.
  pub record IsMpdu : Type 0 where
    pub some_bytes : 0 < length b
    pub ends : index b (length b - 1) ≡ 255
    pub addressed : length (serde.to_vec b) < 2 ^ 64

  length-to_vec : length (serde.to_vec b) ≡ length (head (length b)) + length b
  length-to_vec = ap length (laws.to_vec_lem b) ∙ length-append (head (length b)) b

  last_byte :
      (rest : Bytes) → IsMpdu → index (serde.to_vec b ++ rest) (length (serde.to_vec b) - 1) ≡ 255
  last_byte rest m =
      let at : length (serde.to_vec b) - 1 ≡ length (head (length b)) + (length b - 1) =
        omega (arith, length-to_vec, m.some_bytes) in
      let inside : length (serde.to_vec b) - 1 < length (serde.to_vec b) =
        omega (arith, length-to_vec, m.some_bytes) in
      index-append_left (length (serde.to_vec b) - 1) (serde.to_vec b) rest inside
      ∙ ap (λ i. index (serde.to_vec b) i) at
      ∙ ap (λ s. index s (length (head (length b)) + (length b - 1))) (laws.to_vec_lem b)
      ∙ index-append_right (head (length b)) b (length b - 1)
      ∙ m.ends

  -- A buffer that starts like the MPDU, as far as its head is looked at.
  header_lem :
      (buf rest : Bytes)
      → buf ≡ serde.to_vec b ++ rest
      → IsMpdu
      → (cbor_hdr_len (index buf 0) ≡ length (head (length b)))
        × (cbor_parse_byte_string_len (take 10 buf) ≡ length b)
  header_lem buf rest e m =
      let whole : buf ≡ head (length b) ++ (b ++ rest) =
        e ∙ ap (λ s. s ++ rest) (laws.to_vec_lem b) ∙ append_assoc (head (length b)) b rest in
      (
        ap (λ s. cbor_hdr_len (index s 0)) whole ∙ head-length (length b) (b ++ rest),
        ap (λ s. cbor_parse_byte_string_len (take 10 s)) whole
            ∙ head-len (length b) (b ++ rest) (omega (arith, length-to_vec, m.addressed)),
      )

  whole_lem :
      (rest : Bytes)
      → IsMpdu
      → 10 ≤ length (serde.to_vec b ++ rest)
      → decode serde (serde.to_vec b ++ rest) ≡ (item b, rest)
  unfolding decode
  whole_lem rest m long =
      let h = header_lem (serde.to_vec b ++ rest) rest refl m in
      let total : length (head (length b)) + length b ≡ length (serde.to_vec b) =
        sym length-to_vec in
      ground (
        arith,
        h.0,
        h.1,
        total,
        head-small (length b),
        m.addressed,
        m.some_bytes,
        length-append (serde.to_vec b) rest,
        last_byte rest m,
        take-length (serde.to_vec b) rest,
        drop-length (serde.to_vec b) rest,
        laws.from_slice-to_vec b,
      )

  prefix_lem :
      (p q : Bytes)
      → IsMpdu
      → p ++ q ≡ serde.to_vec b
      → 0 < length q
      → decode serde p ≡ (waiting, p)
  unfolding decode
  prefix_lem p q m e some_left =
      let h = header_lem (p ++ q) [] (e ∙ sym (append-nil (serde.to_vec b))) m in
      let sum : length p + length q ≡ length (head (length b)) + length b =
        sym (length-append p q) ∙ ap length e ∙ length-to_vec in
      elim (Bool-cases (ltb (length p) 10)) [
        | inl short ↦ ground (arith, short)
        | inr long ↦
            let ten : 10 ≤ length p = ground (arith, long) in
            let first = index-append_left 0 p q (omega (arith, ten)) in
            let front = take-append_left 10 p q ten in
            let header : cbor_hdr_len (index p 0) ≡ length (head (length b)) =
              ap cbor_hdr_len (sym first) ∙ h.0 in
            let size : cbor_parse_byte_string_len (take 10 p) ≡ length b =
              ap cbor_parse_byte_string_len (sym front) ∙ h.1 in
            ground (
              arith,
              long,
              header,
              size,
              sum,
              some_left,
              head-small (length b),
              m.addressed,
              length-to_vec,
            )
      ]

  -- Waiting for the last byte, and then complete.
  pub record IsFramed : Type 0 where
    pub waits :
        (p q : Bytes) → p ++ q ≡ serde.to_vec b → 0 < length q → decode serde p ≡ (waiting, p)
    pub completes :
        (rest : Bytes)
        → 10 ≤ length (serde.to_vec b ++ rest)
        → decode serde (encode serde b [] ++ rest) ≡ (item b, rest)

  -- A bundle whose bytes end with 255 and whose MPDU has less than 2 ^ 64 bytes: as long as a
  -- byte of its MPDU is missing, the decoder waits and keeps the buffer; when the MPDU is
  -- complete, whatever stands behind it, and the buffer has at least ten bytes, the decoder
  -- returns exactly the bundle and leaves exactly what stands behind. The library writes byte
  -- strings in the shortest form of CBOR and reads back what it wrote.
  pub decode-IsFramed : IsMpdu → IsFramed
  unfolding encode
  decode-IsFramed m = record {
    waits = λ p q. prefix_lem p q m;
    completes = λ rest long. whole_lem rest m long;
  }
