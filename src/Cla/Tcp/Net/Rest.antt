-- ===== src/Cla/Tcp/Net/Rest.antt =====
-- What `TcpClPacket::read` of core/dtn7/src/cla/tcp/net.rs leaves of its input.
use mathlib.Core.List.{append_assoc}
use dtn7_rs.Prelude.{
  ℕ, zero, suc, ◌+◌, ◌≡◌, refl, not, ◌&&◌, inl, inr, Bool, true, false, Option, none, some, List,
  [], ◌∷◌, ◌++◌, ltb, leb, ◌==◌, nat_eq, if◌then◌else◌, Option-cases,
}
use dtn7_rs.Cla.Tcp.Proto.{
  Bytes, MessageType, message_type, refuse_reason, term_reason, reject_reason, segment_flags,
  TransferExtensionItem,
}
use dtn7_rs.Cla.Tcp.Wire.{
  Wire, Laws, Read, Parsed, ok, fail, proceed, bail_if, known, Width, read_u8, read_int, read_exact,
  TcpClError, u16, u32, u64, segment_too_large, session_extension_items_unsupported, invalid_magic,
  unsupported_version, unknown_reason_code, malformed_transfer_extension,
}
use dtn7_rs.Cla.Tcp.Net.{
  segment_mru, read_segment, read, read_sess_init, read_message, read_contact_header, read_known,
  add_item, parse_extensions, checked_sub, read_extensions, skip,
}

abbrev pub IsRest : Bytes → Bytes → Type 0
IsRest s t = (front : Bytes) × (front ++ t ≡ s)

-- If a value is read, what is left of `s` is a rest of it.
abbrev pub LeavesRest : {A : Type 0} → Bytes → Parsed A → Type 0
LeavesRest s (ok a t) = IsRest s t
LeavesRest s (fail e) = Unit

LeavesRest-IsRest :
    {A : Type 0} (s t : Bytes) (r : Parsed A) → IsRest s t → LeavesRest t r → LeavesRest s r
LeavesRest-IsRest s t (ok a u) (front, e) (more, e') =
    (front ++ more, rw (append_assoc front more u) (rw e' e))
LeavesRest-IsRest s t (fail e) h k = tt

module _ {A : Type 0} where
  proceed-LeavesRest :
      {B : Type 0} (r : Parsed B) (f : B → Read A) (s : Bytes)
      → LeavesRest s r
      → ((b : B) (t : Bytes) → LeavesRest t (f b t))
      → LeavesRest s (proceed r f)
  proceed-LeavesRest (ok b t) f s h k = LeavesRest-IsRest s t (f b t) h (k b t)
  proceed-LeavesRest (fail e) f s h k = tt

  branch-LeavesRest :
      (b : Bool) (x y : Read A) (s : Bytes)
      → LeavesRest s (x s)
      → LeavesRest s (y s)
      → LeavesRest s ((elim b as (λ _. Read A) [ true ↦ x | false ↦ y ]) s)
  branch-LeavesRest true x y s h k = h
  branch-LeavesRest false x y s h k = k

  choose-LeavesRest :
      (b : Bool) (x y : Read A) (s : Bytes)
      → LeavesRest s (x s)
      → LeavesRest s (y s)
      → LeavesRest s ((if b then x else y) s)
  choose-LeavesRest true x y s h k = h
  choose-LeavesRest false x y s h k = k

  after_u8 :
      (f : ℕ → Read A) (s : Bytes)
      → ((b : ℕ) (t : Bytes) → LeavesRest t (f b t))
      → LeavesRest s (proceed (read_u8 s) f)
  after_u8 f [] k = tt
  after_u8 f (b ∷ s) k = LeavesRest-IsRest (b ∷ s) s (f b s) (b ∷ [], refl) (k b s)

  after_bail_if :
      (b : Bool) (e : TcpClError) (f : Unit {0} → Read A) (s : Bytes)
      → ((t : Bytes) → LeavesRest t (f tt t))
      → LeavesRest s (proceed (bail_if b e s) f)
  after_bail_if true e f s k = tt
  after_bail_if false e f s k = k s

  after_known :
      {C : Type 0} (o : Option C) (e : TcpClError) (f : C → Read A) (s : Bytes)
      → ((c : C) (t : Bytes) → LeavesRest t (f c t))
      → LeavesRest s (proceed (known o e s) f)
  after_known none e f s k = tt
  after_known (some c) e f s k = k c s

read_exact-LeavesRest : (n : ℕ) (s : Bytes) → LeavesRest s (read_exact n s)
unfolding read_exact
read_exact-LeavesRest zero s = ([], refl)
read_exact-LeavesRest (suc n) [] = tt
read_exact-LeavesRest (suc n) (b ∷ s) =
    LeavesRest-IsRest (b ∷ s) s _ (b ∷ [], refl)
      (proceed-LeavesRest (read_exact n s) _ s (read_exact-LeavesRest n s) λ bs t. ([], refl))

module _ {A : Type 0} where
  after_exact :
      (n : ℕ) (f : Bytes → Read A) (s : Bytes)
      → ((bs t : Bytes) → LeavesRest t (f bs t))
      → LeavesRest s (proceed (read_exact n s) f)
  after_exact n f s = proceed-LeavesRest (read_exact n s) f s (read_exact-LeavesRest n s)

  after_int :
      (w : Wire)
      → Laws w
      → (m : Width) (f : ℕ → Read A) (s : Bytes) → ((v : ℕ) (t : Bytes) → LeavesRest t (f v t))
      → LeavesRest s (proceed (read_int w m s) f)
  after_int w laws m f s k = elim (Option-cases (w.get m s)) [
    | inl e ↦ rw e tt
    | inr ((v, rest), e) ↦
        rw e (LeavesRest-IsRest s rest (f v rest) (laws.get_rest m s v rest e) (k v rest))
  ]

skip-LeavesRest : (w : Wire) (n : ℕ) (s : Bytes) → LeavesRest s (skip w n s)
unfolding skip
skip-LeavesRest w zero s = ([], refl)
skip-LeavesRest w (suc n) s = after_u8 _ s λ b t. skip-LeavesRest w n t

module _ (w : Wire) (laws : Laws w) where
  parse_extensions-LeavesRest :
      (fuel n : ℕ) (es : List TransferExtensionItem) (s : Bytes)
      → LeavesRest s (parse_extensions w fuel n es s)
  unfolding parse_extensions
  parse_extensions-LeavesRest zero n es s = tt
  parse_extensions-LeavesRest (suc fuel) n es s =
      branch-LeavesRest (leb 5 n) _ _ s
        (after_u8 _ s λ flag s. after_int w laws u16 _ s λ code s. after_int w laws u16 _ s λ l s.
          after_known (checked_sub n (5 + l)) malformed_transfer_extension _ s λ left s.
            after_exact l _ s λ content s.
              parse_extensions-LeavesRest fuel left (add_item w flag code content es) s)
        (proceed-LeavesRest (skip w n s) _ s (skip-LeavesRest w n s) λ _ t. ([], refl))

  read_extensions-LeavesRest : (start : Bool) (s : Bytes) → LeavesRest s (read_extensions w start s)
  unfolding read_extensions
  read_extensions-LeavesRest false s = ([], refl)
  read_extensions-LeavesRest true s = after_int w laws u32 _ s λ n s.
      choose-LeavesRest (n == 0) _ _ s ([], refl) (parse_extensions-LeavesRest (suc n) n [] s)

  read_segment-LeavesRest : (s : Bytes) → LeavesRest s (read_segment w s)
  unfolding read_segment
  read_segment-LeavesRest s = after_u8 _ s λ bits s. after_int w laws u64 _ s λ tid s.
      proceed-LeavesRest (read_extensions w (segment_flags bits).start s) _ s
        (read_extensions-LeavesRest (segment_flags bits).start s)
        λ es s. after_int w laws u64 _ s λ len s.
          after_bail_if (ltb segment_mru len) (segment_too_large len) _ s
            λ s. after_exact len _ s λ buf s. ([], refl)

  read_sess_init-LeavesRest : (s : Bytes) → LeavesRest s (read_sess_init w s)
  unfolding read_sess_init
  read_sess_init-LeavesRest s = after_int w laws u16 _ s λ a s. after_int w laws u64 _ s λ b s.
      after_int w laws u64 _ s λ c s. after_int w laws u16 _ s λ n s. after_exact n _ s λ _ s.
        after_int w laws u32 _ s λ e s.
          after_bail_if (not (e == 0)) session_extension_items_unsupported _ s λ s. ([], refl)

  read_contact_header-LeavesRest : (s : Bytes) → LeavesRest s (read_contact_header w s)
  unfolding read_contact_header
  read_contact_header-LeavesRest s = after_u8 _ s λ t s. after_u8 _ s λ n s. after_u8 _ s λ m s.
      after_u8 _ s λ v s. after_u8 _ s λ f s.
        after_bail_if (not (t == b't' && (n == b'n' && m == b'!'))) invalid_magic _ s
          λ s. after_bail_if (not (v == 4)) unsupported_version _ s λ s. ([], refl)

  read_message-LeavesRest : (t : MessageType) (s : Bytes) → LeavesRest s (read_message w t s)
  unfolding read_message
  read_message-LeavesRest MessageType.xfer_segment s = read_segment-LeavesRest s
  read_message-LeavesRest MessageType.xfer_ack s =
      after_u8 _ s
        λ bits s. after_int w laws u64 _ s λ tid s. after_int w laws u64 _ s λ len s. ([], refl)
  read_message-LeavesRest MessageType.xfer_refuse s = after_u8 _ s λ c s.
      after_known (refuse_reason c) (unknown_reason_code c) _ s
        λ r s. after_int w laws u64 _ s λ tid s. ([], refl)
  read_message-LeavesRest MessageType.keepalive s = ([], refl)
  read_message-LeavesRest MessageType.sess_term s = after_u8 _ s λ b s.
      after_u8 _ s λ c s. after_known (term_reason c) (unknown_reason_code c) _ s λ r s. ([], refl)
  read_message-LeavesRest MessageType.sess_init s = read_sess_init-LeavesRest s
  read_message-LeavesRest MessageType.msg_reject s = after_u8 _ s λ c s.
      after_u8 _ s
        λ h s. after_known (reject_reason c) (unknown_reason_code c) _ s λ r s. ([], refl)

  read_known-LeavesRest :
      (code : ℕ) (t : Option MessageType) (s : Bytes) → LeavesRest s (read_known w code t s)
  unfolding read_known
  read_known-LeavesRest code (some t) s = read_message-LeavesRest t s
  read_known-LeavesRest code none s =
      choose-LeavesRest (code == b'd') _ _ s (read_contact_header-LeavesRest s) tt

  pub read-LeavesRest : (s : Bytes) → LeavesRest s (read w s)
  unfolding read
  read-LeavesRest s = after_u8 _ s λ code s. read_known-LeavesRest code (message_type code) s
