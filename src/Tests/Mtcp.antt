-- ===== src/Tests/Mtcp.antt =====
-- Runs of the framing of MTCP: core/dtn7/src/cla/mtcp.rs.
use dtn7_rs.Prelude.{refl, some, [], ◌∷◌, ◌++◌, length, arith, nat_eq}
use dtn7_rs.Cla.Tcp.Proto.{Bytes}
use dtn7_rs.Cla.Mtcp.{Serde, drop, cbor_hdr_len, index}
use dtn7_rs.Cla.Mtcp.Framing.{
  head, Laws, IsMpdu, IsFramed, decode-IsFramed, drop-length, head-length,
}

-- The head of the byte string is cut off.
serde : Serde
serde = record {
  to_vec = λ b. head (length b) ++ b;
  from_slice = λ s. some (drop (cbor_hdr_len (index s 0)) s);
}

serde-Laws : Laws serde
unfolding serde
serde-Laws = record {
  to_vec_lem = λ b. refl;
  from_slice-to_vec = λ b. rw (head-length (length b) b, drop-length (head (length b)) b) refl;
}

abbrev bundle : Bytes
bundle = 159 ∷ 1 ∷ 2 ∷ 3 ∷ 4 ∷ 5 ∷ 6 ∷ 7 ∷ 8 ∷ 255 ∷ []

bundle-IsMpdu : IsMpdu serde serde-Laws bundle
unfolding serde head index
bundle-IsMpdu = record { some_bytes = omega arith; ends = refl; addressed = omega arith }

decode-IsFramed_example : IsFramed serde serde-Laws bundle
decode-IsFramed_example = decode-IsFramed serde serde-Laws bundle bundle-IsMpdu
