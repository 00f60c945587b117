-- ===== src/Tcp/Reads.antt =====
-- What one call of `tcpReadFromBuffer` does to the stream of bytes and to the responses.
use mathlib.Core.Path.{subst}
use libfranka.Prelude.{
  ℕ, ◌≤◌, ◌<◌, ◌≡◌, ◌∙◌, inl, inr, refl, sym, ap, Bool, true, false, not, ◌&&◌, ltb, leb, List, [],
  ◌++◌, length, take, append_assoc, Result, ok, raise, running, Method, pure, throw_if-ok,
  after-eq-ok, branch_true, branch_false, Bool-cases, modify, get, if◌then◌else◌, ◌>>=◌, ◌>>◌,
  arith,
}
use libfranka.Exceptions.{Exception, network}
use libfranka.Tcp.Channel.{
  Socket, Header, Tcp, is_empty, emplace, on_socket, begin_message, k_receive, read_header,
  read_payload, tcp_read_from_buffer,
}
use libfranka.Tcp.Frames.{
  IsByteStream, partial, HasBegun, IsFramed, Adds, on_socket-eq, read_payload-Adds, as_network-ok,
}
use libfranka.Tcp.Headers.{
  empty_if, not_empty, both_true, HasBegun-begin_message, nothing_read, begun_if,
}
use libfranka.Prelude.{append-nil, after}

-- A call, the state behind it, and what follows with that state.
seen :
    {E S B : Type 0} (r : Result E (Unit {0}) × S) (f : S → Method E S B) {b : B} {t : S}
    → after (after r.0 r.1 (λ _. get)).0 (after r.0 r.1 (λ _. get)).1 f ≡ (ok b, t)
    → (w : S) × (r ≡ (ok tt, w)) × (f w w ≡ (ok b, t))
seen (ok _, s) f h = (s, refl, h)
seen (raise x, s) f h = absurd (cc)
seen (running, s) f h = absurd (cc)

module _ {S : Type 0} (coming : S → List ℕ) (h : Header) where
  -- The end of a read without any bytes.
  nothing-Adds :
      (s u t : Tcp S)
      → u ≡ t
      → coming u.tcp_socket ≡ coming s.tcp_socket
      → IsFramed h u
      → partial u ≡ partial s
      → u.received_responses ≡ s.received_responses
      → (b : List ℕ) × (coming s.tcp_socket ≡ b ++ coming t.tcp_socket)
        × IsFramed h t
        × Adds h b s t
  nothing-Adds s u t done still framed part kept = (
    [],
    sym still ∙ ap (λ (x : Tcp S). coming x.tcp_socket) done,
    subst (IsFramed h) done framed,
    inl (
      ap (λ (x : Tcp S). x.received_responses) (sym done) ∙ kept,
      ap partial (sym done) ∙ part ∙ sym (append-nil (partial s)),
    ),
  )

module _ {S F : Type 0} (socket : Socket S) (coming : S → List ℕ)
    (stream : IsByteStream socket coming) (h : Header) where
  -- The bytes of a header that was available.
  read_header-HasBegun :
      (a : ℕ) (c : S) (s t : Tcp S)
      → (socket.available c).0 ≡ ok a
      → s.tcp_socket ≡ (socket.available c).1
      → h.size ≤ a
      → ◌≡◌ {A = Result (Exception F) (Unit {0}) × Tcp S} (read_header socket h s) (ok tt, t)
      → (b : List ℕ) × (coming s.tcp_socket ≡ b ++ coming t.tcp_socket)
        × HasBegun h t
        × (partial t ≡ b)
        × (t.received_responses ≡ s.received_responses)
  unfolding read_header
  read_header-HasBegun a c s t there here enough e =
      let (bs, e₁, k₁) =
        after-eq-ok (on_socket {F = F} k_receive (socket.receive_bytes h.size) s) _ e in
      let u = (on_socket {F = F} k_receive (socket.receive_bytes h.size) s).1 in
      let got = on_socket-eq {F = F} socket coming stream h (socket.receive_bytes h.size) s e₁ in
      let (came, few) = stream.receives h.size s.tcp_socket u.tcp_socket bs got in
      let whole =
        stream.fills h.size a c bs there enough
          (subst (λ x. (socket.receive_bytes h.size x).0 ≡ ok bs) here (ap (λ p. p.0) got)) in
      let (fits, k₂) =
        throw_if-ok (ltb (h.size_of bs) h.size) _ (modify (begin_message h bs)) u k₁ in
      let done : begin_message h bs u ≡ t = ap (λ p. p.1) k₂ in
      let (begun, part) =
        HasBegun-begin_message h bs u whole (not_less (h.size_of bs) h.size fits) in
      (
        bs,
        came ∙ ap (λ (x : Tcp S). bs ++ coming x.tcp_socket) done,
        subst (HasBegun h) done begun,
        ap partial (sym done) ∙ part,
        ap (λ (x : Tcp S). x.received_responses) (sym done),
      )
    where
      not_less : (x y : ℕ) → ltb x y ≡ false → y ≤ x
      not_less x y p = ground arith

  -- The rest of a read behind a header.
  header-Adds :
      (b : List ℕ) (s u t : Tcp S)
      → partial s ≡ []
      → coming s.tcp_socket ≡ b ++ coming u.tcp_socket
      → HasBegun h u
      → partial u ≡ b
      → u.received_responses ≡ s.received_responses
      → ◌≡◌ {A = Result (Exception F) (Unit {0}) × Tcp S} (read_payload socket u) (ok tt, t)
      → (b : List ℕ) × (coming s.tcp_socket ≡ b ++ coming t.tcp_socket)
        × IsFramed h t
        × Adds h b s t
  header-Adds b s u t none_yet came begun part kept e =
      let (c, more, framed, adds) = read_payload-Adds {F = F} socket coming stream h u t begun e in
      let joined : partial u ++ c ≡ partial s ++ (b ++ c) =
        ap (λ l. l ++ c) part ∙ ap (λ l. l ++ (b ++ c)) (sym none_yet) in
      (
        b ++ c,
        came ∙ ap (λ l. b ++ l) more ∙ sym (append_assoc b c (coming t.tcp_socket)),
        framed,
        moved c joined adds,
      )
    where
      moved :
          (c : List ℕ) → partial u ++ c ≡ partial s ++ (b ++ c) → Adds h c u t → Adds h (b ++ c) s t
      moved c joined (inl (same, grown)) = inl (same ∙ kept, grown ∙ joined)
      moved c joined (inr (low, sized, over, put)) = inr (
        subst (λ l. h.size ≤ length l) joined low,
        subst (λ l. length l ≡ h.size_of (take h.size l)) joined sized,
        over,
        put
            ∙ ap (λ l. emplace (h.command_id_of (take h.size l)) l u.received_responses) joined
            ∙ ap
                (emplace (h.command_id_of (take h.size (partial s ++ (b ++ c))))
                  (partial s ++ (b ++ c)))
                kept,
      )

  -- The end of a read behind its decision on the header.
  rest-Adds :
      (a : ℕ) (s t : Tcp S)
      → 0 < h.size
      → IsFramed h s
      → (socket.available s.tcp_socket).0 ≡ ok a
      → ◌≡◌ {A = Result (Exception F) (Unit {0}) × Tcp S}
          (((if is_empty s.pending_response && leb h.size a then read_header socket h else pure tt)
              >> get
              >>= λ v.
                  if not (is_empty v.pending_response) && ltb 0 a
                  then read_payload socket
                  else pure tt)
            (record s { tcp_socket = (socket.available s.tcp_socket).1 }))
          (ok tt, t)
      → (b : List ℕ) × (coming s.tcp_socket ≡ b ++ coming t.tcp_socket)
        × IsFramed h t
        × Adds h b s t
  rest-Adds a s t size framed there e =
      let u : Tcp S = record s { tcp_socket = (socket.available s.tcp_socket).1 } in
      let still : coming u.tcp_socket ≡ coming s.tcp_socket = stream.looks s.tcp_socket in
      let header = is_empty s.pending_response && leb h.size a in
      let (w, e₁, k₁) = seen ((if header then read_header {F = F} socket h else pure tt) u) _ e in
      elim (Bool-cases header) [
        | inl reads ↦
            let (no_message, available) =
              both_true (is_empty s.pending_response) (leb h.size a) reads in
            let (b, came, begun, part, kept) =
              read_header-HasBegun a s.tcp_socket u w there refl (enough h.size a available)
                (branch_true header _ _ u reads e₁) in
            let none_yet : partial u ≡ [] =
              ap (λ o. take o s.pending_response)
                (nothing_read h s framed (empty_if s.pending_response no_message)) in
            let goes =
              goes_on w.pending_response a h.size w.pending_response_offset size
                (enough h.size a available) begun.0 begun.1 in
            let (c, more, framed', adds) =
              header-Adds b u w t none_yet came begun part kept
                (branch_true _ (read_payload {F = F} socket) (pure tt) w goes k₁) in
            (c, sym still ∙ more, framed', adds)
        | inr not_read ↦
            let same : w ≡ u = sym (ap (λ p. p.1) (branch_false header _ _ u not_read e₁)) in
            let k₂ : (if not (is_empty u.pending_response) && ltb 0 a
                    then read_payload {F = F} socket
                    else pure tt)
                  u
                ≡ (ok tt, t) =
              subst
                (λ (x : Tcp S).
                  (if not (is_empty x.pending_response) && ltb 0 a
                      then read_payload {F = F} socket
                      else pure tt)
                    x
                  ≡ (ok tt, t))
                same k₁ in
            elim (Bool-cases (not (is_empty u.pending_response) && ltb 0 a)) [
              | inl pays ↦
                  let (full, _) = both_true (not (is_empty s.pending_response)) (ltb 0 a) pays in
                  let (c, more, framed', adds) =
                    read_payload-Adds {F = F} socket coming stream h u t
                      (begun_if h s framed (not_true full)) (branch_true _ _ _ u pays k₂) in
                  (c, sym still ∙ more, framed', adds)
              | inr quiet ↦
                  nothing-Adds coming h s u t (ap (λ p. p.1) (branch_false _ _ _ u quiet k₂)) still
                    framed refl refl
            ]
      ]
    where
      enough : (x y : ℕ) → leb x y ≡ true → x ≤ y
      enough x y p = ground arith

      not_true : {b : Bool} → not b ≡ true → b ≡ false
      not_true {b} p = ground arith

      goes_on :
          (xs : List ℕ) (a n o : ℕ)
          → 0 < n
          → n ≤ a
          → n ≤ o
          → o ≤ length xs
          → (not (is_empty xs) && ltb 0 a) ≡ true
      goes_on xs a n o p q l m =
          ap (λ b. not b && ltb 0 a) (not_empty xs (omega (arith, p, q, l, m)))
          ∙ positive a (omega (arith, p, q))
        where
          positive : (k : ℕ) → 0 < k → ltb 0 k ≡ true
          positive k z = ground arith

  -- Let the header have a size, and let a socket be a stream of bytes. A call of `tcpReadFromBuffer`
  -- that returns, from a buffer that is empty or holds a message whose header was read, leaves such
  -- a buffer; it takes the next bytes of the stream, none or some, and adds them to the message. It
  -- delivers the message, and then under the command id of its header, only if it has as many bytes
  -- as its header says; otherwise the responses stay as they were.
  pub tcp_read_from_buffer-Adds :
      (timeout : ℕ) (s t : Tcp S)
      → 0 < h.size
      → IsFramed h s
      → ◌≡◌ {A = Result (Exception F) (Unit {0}) × Tcp S}
          (tcp_read_from_buffer socket h timeout s)
          (ok tt, t)
      → (b : List ℕ) × (coming s.tcp_socket ≡ b ++ coming t.tcp_socket)
        × IsFramed h t
        × Adds h b s t
  unfolding tcp_read_from_buffer
  tcp_read_from_buffer-Adds timeout s t size framed e =
      let (broken, e₁, k₁) = after-eq-ok (on_socket {F = F} k_receive socket.poll_error s) _ e in
      let u = (on_socket {F = F} k_receive socket.poll_error s).1 in
      let (_, k₂) =
        throw_if-ok broken (network "libfranka: TCP connection got interrupted.") _ u k₁ in
      let (readable, e₃, k₃) =
        after-eq-ok (on_socket {F = F} k_receive (socket.poll_read timeout) u) _ k₂ in
      let v = (on_socket {F = F} k_receive (socket.poll_read timeout) u).1 in
      let still : coming v.tcp_socket ≡ coming s.tcp_socket =
        stream.polls_read timeout u.tcp_socket ∙ stream.polls_error s.tcp_socket in
      elim (Bool-cases (not readable)) [
        | inl quiet ↦
            nothing-Adds coming h s v t (ap (λ p. p.1) (branch_true (not readable) _ _ v quiet k₃))
              still framed refl refl
        | inr loud ↦
            let (a, e₄, k₄) =
              after-eq-ok (on_socket {F = F} k_receive socket.available v) _
                (branch_false (not readable) _ _ v loud k₃) in
            let (b, came, framed', adds) =
              rest-Adds a v t size framed
                (as_network-ok k_receive (socket.available v.tcp_socket).0 e₄) k₄ in
            (b, sym still ∙ came, framed', adds)
      ]
