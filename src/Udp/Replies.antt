-- ===== src/Udp/Replies.antt =====
-- A command goes to where the last state came from.
use libfranka.Prelude.{
  zero, suc, ◌≤◌, take, [], ◌∷◌, ℕ, ◌≡◌, ◌∙◌, refl, sym, ap, not, true, false, ◌==◌, Bool, List,
  length, Result, ok, pure, throw_if, throw_if-ok, ok_injective, after-eq-ok, eq_of_fst, arith,
}
use libfranka.Exceptions.{Exception, protocol}
use libfranka.Tcp.{as_network}
use libfranka.Tcp.Frames.{as_network-ok}
use libfranka.Udp.{DatagramSocket, Udp, on_udp, udp_blocking_receive, udp_send}

same_number : (a b : ℕ) → not (a == b) ≡ false → a ≡ b
same_number a b h = ground arith

module _ {D A F : Type 0} (socket : DatagramSocket D A) where
  udp_blocking_receive-ok :
      {W : Type 0} (size : ℕ) (value_of : List ℕ → W) (s t : Udp D A) {value : W}
      → ◌≡◌ {A = Result (Exception F) W × Udp D A}
          (udp_blocking_receive socket size value_of s)
          (ok value, t)
      → (bs : List ℕ) × (a : A) × (socket.receive_from size s.udp_socket
          ≡ (ok (bs, a), t.udp_socket))
        × (length bs ≡ size)
        × (value ≡ value_of bs)
        × (t.udp_server_address ≡ a)
  unfolding udp_blocking_receive
  udp_blocking_receive-ok size value_of s t e =
      let (received, e₁, k₁) =
        after-eq-ok
          (on_udp {F = F} (as_network "libfranka: UDP receive: ") (socket.receive_from size) s) _
          e in
      let u : Udp D A = record s {
        udp_socket = (socket.receive_from size s.udp_socket).1;
        udp_server_address = received.1;
      } in
      let (whole, k₂) =
        throw_if-ok (not (length received.0 == size)) (protocol "libfranka: incorrect object size")
          (pure (value_of received.0)) u k₁ in
      let got = eq_of_fst (socket.receive_from size s.udp_socket) (as_network-ok {F = F} _ _ e₁) in
      let done : u ≡ t = ap (λ p. p.1) k₂ in
      (
        received.0,
        received.1,
        got ∙ ap (λ (x : Udp D A). (ok received, x.udp_socket)) done,
        same_number (length received.0) size whole,
        sym (ok_injective (ap (λ p. p.0) k₂)),
        ap (λ (x : Udp D A). x.udp_server_address) (sym done),
      )

  udp_send-ok :
      (bytes : List ℕ) (s t : Udp D A)
      → ◌≡◌ {A = Result (Exception F) (Unit {0}) × Udp D A} (udp_send socket bytes s) (ok tt, t)
      → socket.send_to bytes s.udp_server_address s.udp_socket ≡ (ok (length bytes), t.udp_socket)
  unfolding udp_send
  udp_send-ok bytes s t e =
      let sending = socket.send_to bytes s.udp_server_address in
      let (sent, e₁, k₁) =
        after-eq-ok (on_udp {F = F} (as_network "libfranka: UDP send: ") sending s) _ e in
      let (whole, k₂) = let_pass (not (sent == length bytes)) _ _ k₁ in
      eq_of_fst (sending s.udp_socket) (as_network-ok {F = F} _ _ e₁)
      ∙ ap (λ n. (ok n, (sending s.udp_socket).1)) (same_number sent (length bytes) whole)
      ∙ ap (λ (x : Udp D A). (ok (length bytes), x.udp_socket)) k₂
    where
      let_pass :
          {E S : Type 0} (b : Bool) (e : E) (s : S) {t : S}
          → throw_if b e s ≡ (ok tt, t)
          → (b ≡ false) × (s ≡ t)
      let_pass true e s h = absurd (cc)
      let_pass false e s h = (refl, ap (λ p. p.1) h)

-- A socket whose states hold the datagrams that are still to come, each with its sender: a receive takes
-- the first of them, and as much of it as it asks for; the rest of a longer one is lost.
pub record IsMailbox {D A : Type 0} (socket : DatagramSocket D A) (coming : D → List (List ℕ × A))
    : Type 0 where
  pub receives :
      (n : ℕ) (s t : D) (bs : List ℕ) (a : A)
      → socket.receive_from n s ≡ (ok (bs, a), t)
      → (m : List ℕ) × (coming s ≡ (m, a) ∷ coming t) × (bs ≡ take n m)

le-length : (n : ℕ) (m : List ℕ) → length (take n m) ≡ n → n ≤ length m
le-length zero m e = omega arith
le-length (suc n) [] e = absurd (cc)
le-length (suc n) (x ∷ m) e = omega (arith, le-length n m (omega (arith, e)))

module _ {D A F : Type 0} (socket : DatagramSocket D A) (coming : D → List (List ℕ × A))
    (mailbox : IsMailbox socket coming) where
  -- A blocking receive that returned, and a send that returned behind it. The receive took the next
  -- datagram, which is not shorter than the type, and gave the value of as many bytes of it as the type
  -- has; a longer datagram is cut off without notice. The send sent all its bytes to the sender of this
  -- datagram.
  pub udp_send-udp_blocking_receive :
      {W : Type 0} (size : ℕ) (value_of : List ℕ → W) (bytes : List ℕ) (s t u : Udp D A) (value : W)
      → ◌≡◌ {A = Result (Exception F) W × Udp D A}
          (udp_blocking_receive socket size value_of s)
          (ok value, t)
      → ◌≡◌ {A = Result (Exception F) (Unit {0}) × Udp D A} (udp_send socket bytes t) (ok tt, u)
      → (m : List ℕ) × (a : A) × (coming s.udp_socket ≡ (m, a) ∷ coming t.udp_socket)
        × (size ≤ length m)
        × (value ≡ value_of (take size m))
        × (socket.send_to bytes a t.udp_socket ≡ (ok (length bytes), u.udp_socket))
  udp_send-udp_blocking_receive size value_of bytes s t u value received sent =
      let (bs, a, got, whole, same, from) =
        udp_blocking_receive-ok {F = F} socket size value_of s t received in
      let (m, came, cut) = mailbox.receives size s.udp_socket t.udp_socket bs a got in
      (
        m,
        a,
        came,
        le-length size m (sym (ap length cut) ∙ whole),
        same ∙ ap value_of cut,
        ap (λ x. socket.send_to bytes x t.udp_socket) (sym from)
            ∙ udp_send-ok {F = F} socket bytes t u sent,
      )
