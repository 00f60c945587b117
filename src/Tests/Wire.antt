-- ===== src/Tests/Wire.antt =====
-- The class `Network` over sockets that a robot serves: each request is answered with success, and the
-- states of the robot are numbers, those from 8 on still.
use mathlib.Core.Path.{subst}
use libfranka.Prelude.{
  ℕ, ◌≡◌, ◌∙◌, refl, ap, false, not, ltb, Option, none, some, List, [], ◌∷◌, ◌++◌, map, length,
  get_or, eq_refl, sym, Bool, ◌+◌, ◌%◌, ◌^◌, after-run, Result, ok, raise, String, Method, pure,
  throw_if, modify, ◌>>◌, if◌then◌else◌,
}
use libfranka.Interface.{Command, Response, stop_move, WireState}
use libfranka.Exceptions.{Exception, protocol}
use libfranka.Robot.{Network}
use libfranka.Robot.Stream.{IsStream}
use libfranka.Tcp.{
  Socket, Tcp, is_empty, erase, read_header, read_payload, tcp_read_from_buffer, tcp_send_request,
  tcp_receive_response, handle_message, tcp_blocking_receive_response,
  tcp_throw_if_connection_closed, write_at,
}
use libfranka.Udp.{DatagramSocket, Udp, udp_receive, udp_blocking_receive, udp_send}
use libfranka.Connection.{Connection, Layout, robot_network}
use libfranka.Tests.Script.{count_double, moving, resting}
use libfranka.Tests.Frames.{pipe, small_header}

-- A request is its command id, and its response has the status 0.
abbrev echo : Socket (List ℕ)
echo = record pipe {
  poll_read = λ timeout s. (ok (not (is_empty s)), s);
  send_bytes = λ bs s. (ok tt, s ++ (bs ++ (3 ∷ 0 ∷ [])));
}

abbrev arriving : List ℕ → Result String (List ℕ × ℕ) × List ℕ
arriving [] = (raise "Timeout", [])
arriving (x ∷ s) = (ok (x ∷ [], 9), s)

abbrev states : DatagramSocket (List ℕ) ℕ
states = record {
  available = λ s. (ok 0, s);
  receive_from = λ n. arriving;
  send_to = λ bytes a s. (ok (length bytes), s);
}

abbrev state_at : ℕ → WireState ℕ
state_at n = if ltb n 8 then moving n else resting n

abbrev numbers : Layout ℕ
numbers = record {
  header = small_header;
  pointer_size = 8;
  state_size = 1;
  state_of = λ bs. state_at (get_or bs 0 0);
  command_bytes = λ w. [];
  connect_bytes = λ version port id. id ∷ [];
  request_bytes = λ r id. id ∷ [];
  message_size = λ k. 3;
  response_of = λ k m. record { status = get_or m 2 0; version = 0 };
}

abbrev pub Wire : Type 0
Wire = Connection (List ℕ) (List ℕ) ℕ

instance abbrev pub wired : Network Wire ℕ
wired = robot_network 2 numbers echo states

-- The channel while a response is waited for, and while none is.
abbrev pub channel : Option (Command × ℕ) → ℕ → Tcp (List ℕ)
channel p n = record {
  tcp_socket = elim p [ none ↦ [] | some a ↦ a.1 ∷ 3 ∷ 0 ∷ [] ];
  tcp_mutex = false;
  command_id = n;
  pending_response = [];
  pending_response_offset = 0;
  pending_command_id = 0;
  received_responses = [];
}

abbrev pub Phase : Option (Command × ℕ) → Wire → Type 0
Phase p c = (n : ℕ) × (c.tcp ≡ channel p n)

abbrev pub coming : Wire → List (WireState ℕ)
coming c = map state_at c.udp.udp_socket

abbrev wire : Tcp (List ℕ) → Udp (List ℕ) ℕ → Wire
wire t u = record { tcp = t; udp = u }

next_state :
    (t : Tcp (List ℕ)) (l : List ℕ) (a port : ℕ) (r : WireState ℕ) (q : List (WireState ℕ))
    → map state_at l ≡ r ∷ q
    → (u : Udp (List ℕ) ℕ) × (wired.udp_blocking_receive
          (wire t (record { udp_socket = l; udp_server_address = a; udp_port = port }))
        ≡ (ok r, wire t u))
      × (map state_at u.udp_socket ≡ q)
unfolding udp_blocking_receive
next_state t [] a port r q e = absurd (cc)
next_state t (x ∷ l) a port r q e =
    let first : state_at x ≡ r = cc in
    let rest : map state_at l ≡ q = cc in
    let u : Udp (List ℕ) ℕ = record { udp_socket = l; udp_server_address = 9; udp_port = port } in
    (u, ap (λ z. (ok z, wire t u)) first, rest)

abbrev outcome : List ℕ → Tcp (List ℕ) → Result (Exception ℕ) (List ℕ) × Tcp (List ℕ)
outcome m t = (ok m, t)

abbrev kept : ℕ → ℕ → List (ℕ × List ℕ) → Tcp (List ℕ)
kept id n responses = record (channel none n) { received_responses = responses }

answer :
    (k : Command) (id n : ℕ)
    → tcp_blocking_receive_response {F = ℕ} echo 2 small_header 3 id (channel (some (k, id)) n)
      ≡ (ok (id ∷ 3 ∷ 0 ∷ []), channel none n)
unfolding tcp_blocking_receive_response tcp_read_from_buffer read_header read_payload write_at
answer k id n =
    let m : List ℕ = id ∷ 3 ∷ 0 ∷ [] in
    let t = kept id n ((id, m) ∷ []) in
    ap
      (λ b.
        (elim (if b then some m else none) as (λ _. Method (Exception ℕ) (Tcp (List ℕ)) (List ℕ)) [
          | none ↦ tcp_blocking_receive_response {F = ℕ} echo 1 small_header 3 id
          | some message ↦
              throw_if (ltb (get_or message 1 0) 3)
                (protocol "libfranka: Incorrect TCP message size.")
              >> modify (λ (x : Tcp (List ℕ)). record x {
                received_responses = erase id x.received_responses;
              })
              >> pure message
        ])
          t)
      (eq_refl id)
    ∙ ap (λ b. outcome m (kept id n (if b then [] else (id, m) ∷ []))) (eq_refl id)

Opens : Udp (List ℕ) ℕ → Tcp (List ℕ) → Type 0
Opens u t = wired.tcp_throw_if_connection_closed (wire t u) ≡ (ok tt, wire t u)

is_open : (p : Option (Command × ℕ)) (n : ℕ) (u : Udp (List ℕ) ℕ) → Opens u (channel p n)
unfolding Opens tcp_throw_if_connection_closed
is_open none n u = refl
is_open (some a) n u = refl

Sends : Udp (List ℕ) ℕ → Tcp (List ℕ) → Type 0
Sends u t =
    (id : ℕ) × (c : Wire) × (wired.tcp_send_request stop_move (wire t u) ≡ (ok id, c))
    × (coming c ≡ coming (wire t u))
    × Phase (some (Command.stop_move, id)) c

sent : (n : ℕ) (u : Udp (List ℕ) ℕ) → Sends u (channel none n)
unfolding Sends tcp_send_request
sent n u =
    let after : ℕ = (n + 1) % 2 ^ 32 in
    (n, wire (channel (some (Command.stop_move, n)) after) u, refl, refl, (after, refl))

Answers : (k : Command) (id : ℕ) → Udp (List ℕ) ℕ → Tcp (List ℕ) → Type 0
Answers k id u t =
    (r : Response) × (c : Wire) × (wired.tcp_blocking_receive_response k id (wire t u) ≡ (ok r, c))
    × (r.status ≡ 0)
    × (coming c ≡ coming (wire t u))
    × Phase none c

replied : (k : Command) (id n : ℕ) (u : Udp (List ℕ) ℕ) → Answers k id u (channel (some (k, id)) n)
unfolding Answers
replied k id n u =
    let message : List ℕ = id ∷ 3 ∷ 0 ∷ [] in
    (
      numbers.response_of k message,
      wire (channel none n) u,
      ap (λ r. (r.0, wire r.1 u))
          (after-run
            (tcp_blocking_receive_response {F = ℕ} echo 2 small_header 3 id
              (channel (some (k, id)) n))
            (λ m. pure (numbers.response_of k m)) (answer k id n)),
      refl,
      refl,
      (n, refl),
    )

Polls : (k : Command) (id : ℕ) → Udp (List ℕ) ℕ → Tcp (List ℕ) → Type 0
Polls k id u t =
    (b : Bool) × (c : Wire) × (wired.tcp_receive_response k id (λ _. ok tt) (wire t u) ≡ (ok b, c))

polled : (k : Command) (id n : ℕ) (u : Udp (List ℕ) ℕ) → Polls k id u (channel none n)
unfolding Polls tcp_receive_response handle_message tcp_read_from_buffer
polled k id n u = (false, wire (channel none n) u, refl)

pub wired-IsStream : IsStream {N = Wire} coming Phase
unfolding udp_receive udp_send Opens Sends Answers Polls
wired-IsStream = record {
  quiet = λ p c phase. refl;
  next = λ p c r q phase e.
      let (u, got, left) =
        next_state c.tcp c.udp.udp_socket c.udp.udp_server_address c.udp.udp_port r q e in
      (wire c.tcp u, got, left, phase);
  opened = λ p c phase. subst (Opens c.udp) (sym phase.1) (is_open p phase.0 c.udp);
  transmits = λ p w c phase. (c, refl, refl, phase);
  sends = λ c phase. subst (Sends c.udp) (sym phase.1) (sent phase.0 c.udp);
  answers = λ k id c phase. subst (Answers k id c.udp) (sym phase.1) (replied k id phase.0 c.udp);
  polls = λ k id c phase. subst (Polls k id c.udp) (sym phase.1) (polled k id phase.0 c.udp);
}
