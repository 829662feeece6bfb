-- ===== src/Cla/Tcp/Net/Extensions.antt =====
-- The loop over extension items in `TcpClPacket::read` on arbitrary bytes.
use dtn7_rs.Prelude.{
  ℕ, zero, suc, ◌+◌, ◌^◌, ◌<◌, ◌≡◌, refl, inl, inr, Bool, true, false, List, [], ◌∷◌, ◌++◌, length,
  arith, All, leb, ◌==◌, nat_eq, Option-cases,
}
use dtn7_rs.Cla.Tcp.Proto.{Bytes, item_type, TransferExtensionItem}
use dtn7_rs.Cla.Tcp.Wire.{Wire, Laws, known, u16, u32, malformed_transfer_extension}
use dtn7_rs.Cla.Tcp.Ends.{
  Ends, Ends-proceed, Ends-mono, branch-Ends, choose-Ends, after_u8, after_int, after_exact,
}
use dtn7_rs.Cla.Tcp.Net.{add_item, parse_extensions, checked_sub, read_extensions, skip}
use dtn7_rs.Cla.Tcp.Net.RoundTrip.{IsItem, size}

-- Items that fit their fields, and whose announced length leaves room for `n` more.
abbrev pub Fit : ℕ → List TransferExtensionItem → Type 0
Fit n es = All IsItem es × (size es + n < 2 ^ 32)

Fit-append :
    (n : ℕ) (es : List TransferExtensionItem) (e : TransferExtensionItem)
    → IsItem e
    → Fit (5 + length e.content + n) es
    → Fit n (es ++ e ∷ [])
Fit-append n es e h k = (all es k.0, rw (sum es) (omega arith))
  where
    all : (xs : List TransferExtensionItem) → All IsItem xs → All IsItem (xs ++ e ∷ [])
    all [] a = (h, tt)
    all (x ∷ xs) a = (a.0, all xs a.1)

    sum : (xs : List TransferExtensionItem) → size (xs ++ e ∷ []) ≡ size xs + (5 + length e.content)
    sum [] = omega arith
    sum (x ∷ xs) = omega (arith, sum xs)

skip-Ends : (w : Wire) (n : ℕ) (s : Bytes) → Ends (λ _. Unit) (skip w n s)
unfolding skip
skip-Ends w zero s = tt
skip-Ends w (suc n) s = after_u8 _ _ s λ b s. skip-Ends w n s

known-Ends :
    (n l : ℕ) (s : Bytes)
    → Ends (λ left. 5 + l + left ≡ n) (known (checked_sub n (5 + l)) malformed_transfer_extension s)
known-Ends n l s = ground arith

module _ (w : Wire) (laws : Laws w) where
  Fit-add_item :
      (n flag code l : ℕ) (content : Bytes) (es : List TransferExtensionItem)
      → l < 2 ^ 16
      → length content ≡ l
      → Fit (5 + l + n) es
      → Fit n (add_item w flag code content es)
  Fit-add_item n flag code l content es h e k = elim (Option-cases (item_type code)) [
    | inl unknown ↦ rw (unknown, add_item) (k.0, omega arith)
    | inr (t, found) ↦ rw (found, add_item) (Fit-append n es _ (omega arith) (k.0, omega arith))
  ]

  parse_extensions-Ends :
      (fuel n : ℕ) (es : List TransferExtensionItem) (s : Bytes)
      → n < fuel
      → Fit n es
      → Ends (Fit 0) (parse_extensions w fuel n es s)
  unfolding parse_extensions
  parse_extensions-Ends zero n es s h k = absurd (omega arith)
  parse_extensions-Ends (suc fuel) n es s h k =
      branch-Ends _ (leb 5 n) _ _ s
        (after_u8 _ _ s λ flag s. after_int _ w laws u16 _ s λ code s _.
          after_int _ w laws u16 _ s λ l s fits.
            Ends-proceed (λ left. 5 + l + left ≡ n) (Fit 0) _ _ (known-Ends n l s)
              λ left s e. after_exact _ l _ s λ content s e'.
                parse_extensions-Ends fuel left (add_item w flag code content es) s (omega arith)
                  (Fit-add_item left flag code l content es fits e' (k.0, omega arith)))
        (λ _. Ends-proceed (λ _. Unit) (Fit 0) _ _ (skip-Ends w n s) λ _ s _. (k.0, omega arith))

  pub read_extensions-Ends :
      (start : Bool) (s : Bytes)
      → Ends (λ es. Fit 0 es × (start ≡ false → es ≡ [])) (read_extensions w start s)
  unfolding read_extensions
  read_extensions-Ends false s = ((tt, omega arith), λ _. refl)
  read_extensions-Ends true s = after_int _ w laws u32 _ s λ n s h.
      choose-Ends _ (n == 0) _ _ s ((tt, omega arith), λ e. cc)
        (Ends-mono (Fit 0) _ _ (λ es f. (f, λ e. cc))
          (parse_extensions-Ends (suc n) n [] s (omega arith) (tt, omega arith)))
