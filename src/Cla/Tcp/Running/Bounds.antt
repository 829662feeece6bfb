-- ===== src/Cla/Tcp/Running/Bounds.antt =====
-- How much of a transfer a session keeps.
use dtn7_rs.Prelude.{
  ℕ, ◌≤◌, ◌≡◌, refl, Bool, true, false, Option, none, some, List, [], ◌∷◌, length, All, arith, ltb,
  if◌then◌else◌,
}
use dtn7_rs.Cla.Tcp.Proto.{Bytes, XferSegData}
use dtn7_rs.Cla.Tcp.Net.{TcpClPacket, xfer_seg}
use dtn7_rs.Cla.Tcp.Session.{
  TcpSession, ReceiveState, SendState, Response, Host, Result, ok, err, pure, Action, proceed,
  write, answer, TransferResult,
}
use dtn7_rs.Cla.Tcp.Sending.{
  next_transfer, send_request, send_segments, after_failure, mark_last, mark_first, send,
  send_bundle, write_all,
}

-- A bundle that was decoded from at most `n` bytes.
abbrev pub IsWithin : {B : Type 0} → Host B → ℕ → B → Type 0
IsWithin host n b = (buf : Bytes) × (host.try_from buf ≡ some b) × (length buf ≤ n)

-- The limit is the one announced, and every bundle that was handed over is within it.
pub record Keeps {B : Type 0} (host : Host B) (n : ℕ) (s : TcpSession B) : Type 0 where
  pub limit : s.local_session_data.transfer_mru ≡ n
  pub handed_over : All (IsWithin host n) s.received

abbrev pub Holds : ℕ → ReceiveState → Type 0
Holds n (ReceiveState.receiving buf tid) = length buf ≤ n
Holds n _ = Unit

module _ {B : Type 0} (host : Host B) (n : ℕ) where
  -- What holds after an action, whether it fails or not.
  abbrev pub Post : {A : Type 0} → (A → Type 0) → Result A × TcpSession B → Type 0
  Post P (ok a, s) = Keeps host n s × P a
  Post P (err _, s) = Keeps host n s

  pub Post-proceed :
      {A C : Type 0} (P : A → Type 0) (Q : C → Type 0) (r : Result A × TcpSession B)
      (f : A → Action B C)
      → Post P r
      → ((a : A) (s : TcpSession B) → Keeps host n s → P a → Post Q (f a s))
      → Post Q (proceed r f)
  Post-proceed P Q (ok a, s) f h k = k a s h.0 h.1
  Post-proceed P Q (err _, s) f h k = h

  abbrev pub Anything : {A : Type 0} → A → Type 0
  Anything _ = Unit

  pub write-Post : (p : TcpClPacket) (s : TcpSession B) → Keeps host n s → Post Anything (write p s)
  unfolding write
  write-Post p s k = ground (arith, k.limit)

  pub answer-Post :
      (r : Response) (t : TransferResult) (s : TcpSession B)
      → Keeps host n s
      → Post Anything (answer r t s)
  unfolding answer
  answer-Post r t s k = ground (arith, k.limit)

  write_all-Post :
      (ds : List XferSegData) (s : TcpSession B) → Keeps host n s → Post Anything (write_all ds s)
  unfolding write_all
  write_all-Post [] s k = (k, tt)
  write_all-Post (d ∷ ds) s k =
      Post-proceed Anything _ (write (xfer_seg d) s) _ (write-Post (xfer_seg d) s k)
        λ _ s k _. write_all-Post ds s k

  send_segments-Post :
      (bndl : Bytes) (r : Response) (ds : List XferSegData) (s : TcpSession B)
      → Keeps host n s
      → Post Anything (send_segments bndl r ds s)
  send_segments-Post bndl r [] s k =
      Post-proceed Anything _ (answer r TransferResult.failure s) _
        (answer-Post r TransferResult.failure s k) λ sent s k _. after sent s k
    where
      after :
          (sent : Bool) (s : TcpSession B) → Keeps host n s → Post Anything (after_failure sent s)
      after true s k = (k, tt)
      after false s k = k
  send_segments-Post bndl r (d ∷ ds) s k =
      Post-proceed Anything _
        (write_all (mark_last (mark_first s.refuse_existing_bundles (d ∷ ds))) s) _
        (write_all-Post _ s k) λ _ s k _. (k, tt)

  pub send_bundle-Post :
      (bndl : Bytes) (r : Response) (s : TcpSession B)
      → Keeps host n s
      → Post Anything (send_bundle bndl r s)
  unfolding send_bundle
  send_bundle-Post bndl r s k = send_segments-Post bndl r _ s k

  send_request-Post :
      (bndl : Bytes) (r : Response) (o : Option B) (s : TcpSession B)
      → Keeps host n s
      → Post Anything (send_request host bndl r o s)
  send_request-Post bndl r none s k = k
  send_request-Post bndl r (some b) s k =
      Post-proceed Anything _ (write _ s) _ (write-Post _ s k) λ _ s k _. (k, tt)

  -- A test chooses between two actions from one state.
  pub choose-Post :
      {A : Type 0} (P : A → Type 0) (b : Bool) (x y : Result A × TcpSession B)
      → (b ≡ true → Post P x)
      → (b ≡ false → Post P y)
      → Post P (if b then x else y)
  choose-Post P true x y h k = h refl
  choose-Post P false x y h k = k refl

  -- The same, where the test stands above the state.
  pub choose_action-Post :
      {A : Type 0} (P : A → Type 0) (b : Bool) (x y : Action B A) (s : TcpSession B)
      → Post P (x s)
      → Post P (y s)
      → Post P ((if b then x else y) s)
  choose_action-Post P true x y s h k = h
  choose_action-Post P false x y s h k = k

  pub send-Post :
      (bndl : Bytes) (r : Response) (s : TcpSession B)
      → Keeps host n s
      → Post Anything (send host bndl r s)
  unfolding send
  send-Post bndl r s k =
      choose-Post Anything (ltb s.remote_session_data.transfer_mru (length bndl))
        (proceed (answer r TransferResult.failure s) (λ _. pure SendState.idle)) _
        (λ _.
          Post-proceed Anything Anything (answer r TransferResult.failure s) _
            (answer-Post r TransferResult.failure s k) λ _ s k _. (k, tt))
        (λ _.
          choose-Post Anything s.refuse_existing_bundles
            (send_request host bndl r (host.try_from bndl) (next_transfer s))
            (send_bundle bndl r (next_transfer s))
            (λ _. send_request-Post bndl r (host.try_from bndl) (next_transfer s) (moved k))
            (λ _. send_bundle-Post bndl r (next_transfer s) (moved k)))
    where
      moved : Keeps host n s → Keeps host n (next_transfer s)
      moved k = record { limit = k.limit; handed_over = k.handed_over }
