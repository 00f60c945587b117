-- ===== src/Tests/Datagrams.antt =====
-- A socket with two datagrams, from the addresses 9 and 8; what was sent is kept.
use libfranka.Prelude.{ℕ, ◌≤◌, ◌≡◌, refl, String, List, [], ◌∷◌, length, take, Result, ok, raise}
use libfranka.Udp.{DatagramSocket, Udp, udp_blocking_receive, udp_send}
use libfranka.Udp.Replies.{IsMailbox, udp_send-udp_blocking_receive}

-- The datagrams to come with their senders, and the addresses that were sent to.
abbrev Post : Type 0
Post = List (List ℕ × ℕ) × List ℕ

abbrev taken : ℕ → Post → Result String (List ℕ × ℕ) × Post
taken n ([], sent) = (raise "Timeout", ([], sent))
taken n (m ∷ ms, sent) = (ok (take n m.0, m.1), (ms, sent))

abbrev postbox : DatagramSocket Post ℕ
postbox = record {
  available = λ s. (ok 0, s);
  receive_from = taken;
  send_to = λ bytes a s. (ok (length bytes), (s.0, a ∷ s.1));
}

postbox-IsMailbox : IsMailbox postbox (λ s. s.0)
postbox-IsMailbox = record { receives = received }
  where
    received :
        (n : ℕ) (s t : Post) (bs : List ℕ) (a : ℕ)
        → taken n s ≡ (ok (bs, a), t)
        → (m : List ℕ) × (s.0 ≡ (m, a) ∷ t.0) × (bs ≡ take n m)
    received n ([], sent) t bs a e = absurd (cc)
    received n ((m, b) ∷ ms, sent) t bs a e =
        let same : b ≡ a = cc in
        let cut : take n m ≡ bs = cc in
        let left : ms ≡ t.0 = cc in (m, (rw (same, left) refl), rw cut refl)

abbrev before : Udp Post ℕ
before = record {
  udp_socket = ((4 ∷ 5 ∷ 6 ∷ [], 9) ∷ (7 ∷ [], 8) ∷ [], []);
  udp_server_address = 0;
  udp_port = 2000;
}

abbrev received : Udp Post ℕ
received = record before { udp_socket = ((7 ∷ [], 8) ∷ [], []); udp_server_address = 9 }

abbrev replied : Udp Post ℕ
replied = record received { udp_socket = ((7 ∷ [], 8) ∷ [], 9 ∷ []) }

-- The first datagram has one byte more than the type.
udp_send-udp_blocking_receive_example :
    (m : List ℕ) × (a : ℕ) × (before.udp_socket.0 ≡ (m, a) ∷ received.udp_socket.0)
    × (2 ≤ length m)
    × (2 ≡ length (take 2 m))
    × (postbox.send_to (1 ∷ []) a received.udp_socket ≡ (ok 1, replied.udp_socket))
unfolding udp_blocking_receive udp_send
udp_send-udp_blocking_receive_example =
    udp_send-udp_blocking_receive {F = ℕ} postbox (λ s. s.0) postbox-IsMailbox 2 length (1 ∷ [])
      before received replied 2 refl refl
