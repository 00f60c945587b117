-- ===== src/Tcp/Frames.antt =====
-- `tcpReadFromBuffer` cuts the stream of bytes into messages.
use mathlib.Core.Path.{subst}
use libfranka.Prelude.{
  ℕ, ◌+◌, ◌-◌, ◌≤◌, ◌<◌, ◌≡◌, ◌∙◌, ◌⊎◌, inl, inr, refl, sym, ap, String, false, ltb, ◌==◌, List, [],
  ◌++◌, length, take, Result, ok, raise, running, Method, pure, after-eq-ok, eq_of_fst, branch_true,
  branch_false, Bool-cases, eq-true, modify, if◌then◌else◌, arith,
}
use libfranka.Exceptions.{Exception}
use libfranka.Tcp.Bytes.{length-write_at, take-write_at, take-write_at_before, take-length}
use libfranka.Tcp.Channel.{
  Socket, Header, Tcp, emplace, as_network, on_socket, deliver, write_pending, k_receive,
  read_payload,
}

-- A socket whose states hold the bytes that are still to come: a receive takes the first of them, at
-- most as many as it asks for, and all of these if so many were available just before.
pub record IsByteStream {S : Type 0} (socket : Socket S) (coming : S → List ℕ) : Type 0 where
  pub polls_error : (s : S) → coming (socket.poll_error s).1 ≡ coming s
  pub polls_read : (timeout : ℕ) (s : S) → coming (socket.poll_read timeout s).1 ≡ coming s
  pub looks : (s : S) → coming (socket.available s).1 ≡ coming s
  pub receives :
      (n : ℕ) (s t : S) (bs : List ℕ)
      → socket.receive_bytes n s ≡ (ok bs, t)
      → (coming s ≡ bs ++ coming t) × (length bs ≤ n)
  pub fills :
      (n a : ℕ) (s : S) (bs : List ℕ)
      → (socket.available s).0 ≡ ok a
      → n ≤ a
      → (socket.receive_bytes n (socket.available s).1).0 ≡ ok bs
      → length bs ≡ n

module _ {S : Type 0} where
  -- The bytes of the message that is not complete.
  abbrev pub partial : Tcp S → List ℕ
  partial s = take s.pending_response_offset s.pending_response

  -- A buffer for the message whose header was read.
  abbrev pub HasBegun : Header → Tcp S → Type 0
  HasBegun h s =
      (h.size ≤ s.pending_response_offset)
      × (s.pending_response_offset ≤ length s.pending_response)
      × (length s.pending_response ≡ h.size_of (take h.size s.pending_response))
      × (s.pending_command_id ≡ h.command_id_of (take h.size s.pending_response))

  -- Between two reads there is no message, or one that is not complete.
  abbrev pub IsFramed : Header → Tcp S → Type 0
  IsFramed h s =
      ((s.pending_response ≡ []) × (s.pending_response_offset ≡ 0))
      ⊎ (HasBegun h s × (s.pending_response_offset < length s.pending_response))

  -- The bytes `b` were added to the message; if its header says that they complete it, it was delivered
  -- under the command id in its header.
  abbrev pub Adds : Header → List ℕ → Tcp S → Tcp S → Type 0
  Adds h b s t =
      ((t.received_responses ≡ s.received_responses) × (partial t ≡ partial s ++ b))
      ⊎ ((h.size ≤ length (partial s ++ b))
          × (length (partial s ++ b) ≡ h.size_of (take h.size (partial s ++ b)))
          × (partial t ≡ [])
          × (t.received_responses
              ≡ emplace (h.command_id_of (take h.size (partial s ++ b))) (partial s ++ b)
                  s.received_responses))

pub as_network-ok :
    {F A : Type 0} (prefix : String) (r : Result String A) {a : A}
    → ◌≡◌ {A = Result (Exception F) A} (as_network prefix r) (ok a)
    → r ≡ ok a
as_network-ok prefix (ok a) h = cc
as_network-ok prefix (raise x) h = absurd (cc)
as_network-ok prefix running h = absurd (cc)

module _ {S : Type 0} (h : Header) where
  -- What the payload `bs` does to a message that has begun.
  HasBegun-write_pending :
      (bs : List ℕ) (s : Tcp S)
      → HasBegun h s
      → s.pending_response_offset + length bs ≤ length s.pending_response
      → HasBegun h (write_pending bs s) × (partial (write_pending bs s) ≡ partial s ++ bs)
  HasBegun-write_pending bs s (low, high, sized, named) fits =
      let long = length-write_at s.pending_response_offset bs s.pending_response fits in
      let same =
        take-write_at_before h.size s.pending_response_offset bs s.pending_response low fits in
      (
        (
          omega (arith, low),
          omega (arith, long, fits),
          long ∙ sized ∙ ap h.size_of (sym same),
          named ∙ ap h.command_id_of (sym same),
        ),
        take-write_at s.pending_response_offset bs s.pending_response fits,
      )

  -- A complete message is delivered.
  deliver-Adds :
      (b : List ℕ) (s u : Tcp S)
      → HasBegun h u
      → partial u ≡ partial s ++ b
      → u.received_responses ≡ s.received_responses
      → u.pending_response_offset ≡ length u.pending_response
      → Adds h b s (deliver u)
  deliver-Adds b s u (low, high, sized, named) part kept full =
      let whole : u.pending_response ≡ partial s ++ b =
        sym (take-length u.pending_response)
        ∙ ap (λ n. take n u.pending_response) (sym full)
        ∙ part in
      inr (
        subst (λ l. h.size ≤ length l) whole (omega (arith, low, full)),
        subst (λ l. length l ≡ h.size_of (take h.size l)) whole sized,
        refl,
        ap (λ id. emplace id u.pending_response u.received_responses) named
            ∙ ap (λ l. emplace (h.command_id_of (take h.size l)) l u.received_responses) whole
            ∙ ap (emplace (h.command_id_of (take h.size (partial s ++ b))) (partial s ++ b)) kept,
      )

  -- The end of a read: the message is delivered if it is complete.
  concluded :
      {F : Type 0} (b : List ℕ) (s u t : Tcp S)
      → HasBegun h u
      → partial u ≡ partial s ++ b
      → u.received_responses ≡ s.received_responses
      → ◌≡◌ {A = Result (Exception F) (Unit {0}) × Tcp S}
          ((if u.pending_response_offset == length u.pending_response
              then modify deliver
              else pure tt)
            u)
          (ok tt, t)
      → IsFramed h t × Adds h b s t × (t.tcp_socket ≡ u.tcp_socket)
  concluded b s u t begun part kept e =
      elim (Bool-cases (u.pending_response_offset == length u.pending_response)) [
        | inl full ↦
            let done : deliver u ≡ t = ap (λ p. p.1) (branch_true _ _ _ u full e) in
            (
              subst (IsFramed h) done (inl (refl, refl)),
              subst (Adds h b s) done (deliver-Adds b s u begun part kept (eq-true _ _ full)),
              ap (λ (x : Tcp S). x.tcp_socket) (sym done),
            )
        | inr open_yet ↦
            let done : u ≡ t = ap (λ p. p.1) (branch_false _ _ _ u open_yet e) in
            (
              subst (IsFramed h) done (inr (begun, strictly _ _ begun.1 open_yet)),
              subst (Adds h b s) done (inl (kept, part)),
              ap (λ (x : Tcp S). x.tcp_socket) (sym done),
            )
      ]
    where
      strictly : (a c : ℕ) → a ≤ c → (a == c) ≡ false → a < c
      strictly a c l n = ground arith

module _ {S F : Type 0} (socket : Socket S) (coming : S → List ℕ)
    (stream : IsByteStream socket coming) (h : Header) where
  -- A call of the socket that returned.
  pub on_socket-eq :
      {A : Type 0} (m : Method String S A) (s : Tcp S) {a : A}
      → ◌≡◌ {A = Result (Exception F) A} (as_network k_receive (m s.tcp_socket).0) (ok a)
      → m s.tcp_socket ≡ (ok a, (m s.tcp_socket).1)
  on_socket-eq m s e = eq_of_fst (m s.tcp_socket) (as_network-ok k_receive (m s.tcp_socket).0 e)

  pub read_payload-Adds :
      (s t : Tcp S)
      → HasBegun h s
      → ◌≡◌ {A = Result (Exception F) (Unit {0}) × Tcp S} (read_payload socket s) (ok tt, t)
      → (b : List ℕ) × (coming s.tcp_socket ≡ b ++ coming t.tcp_socket)
        × IsFramed h t
        × Adds h b s t
  unfolding read_payload
  read_payload-Adds s t begun e =
      let (now, e₁, k₁) = after-eq-ok (on_socket {F = F} k_receive socket.available s) _ e in
      let u = (on_socket {F = F} k_receive socket.available s).1 in
      let rest = length s.pending_response - s.pending_response_offset in
      let wanted : ℕ = (if ltb rest now then rest else now) in
      let (bs, e₂, k₂) =
        after-eq-ok (on_socket {F = F} k_receive (socket.receive_bytes wanted) u) _ k₁ in
      let v = (on_socket {F = F} k_receive (socket.receive_bytes wanted) u).1 in
      let (came, few) =
        stream.receives wanted u.tcp_socket v.tcp_socket bs
          (on_socket-eq (socket.receive_bytes wanted) u e₂) in
      let (kept, part) = HasBegun-write_pending h bs s begun (
        within s.pending_response_offset (length s.pending_response) now (length bs) begun.1 few) in
      let (framed, adds, same) = concluded h bs s (write_pending bs v) t kept part refl k₂ in
      (
        bs,
        sym (stream.looks s.tcp_socket) ∙ came ∙ ap (λ x. bs ++ coming x) (sym same),
        framed,
        adds,
      )
    where
      within : (o l now n : ℕ) → o ≤ l → n ≤ (if ltb (l - o) now then l - o else now) → o + n ≤ l
      within o l now n p q = ground arith
