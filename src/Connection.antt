-- ===== src/Connection.antt =====
-- The class `Network` of src/network.h and src/network.cpp as the robot's client sees it: the TCP
-- channel and the datagrams together, over the layout of the messages.
pub mod Library
use libfranka.Tcp.Frames.{IsByteStream}
use libfranka.Tcp.Steady.{IsSteady}
use libfranka.Tcp.Messages.{Holds}
use libfranka.Tcp.Arrival.{message_for, behind, tcp_blocking_receive_response-arrives}
use libfranka.Prelude.{
  ok, none, some, ◌≤◌, ◌<◌, ◌≡◌, refl, ap, after-run, length, ℕ, List, Method, ◌>>=◌, pure,
}
use libfranka.Interface.{Request, Command, Response, WireState, WireCommand}
use libfranka.Exceptions.{Exception}
use libfranka.Robot.{Network}
use libfranka.Tcp.{
  Socket, Header, Tcp, find, tcp_send_request, tcp_receive_response, tcp_blocking_receive_response,
  tcp_throw_if_connection_closed,
}
use libfranka.Udp.{DatagramSocket, Udp, udp_receive, udp_blocking_receive, udp_send}

-- The objects of common/include/research_interface in memory, which the compiler lays out: the sizes
-- of `RobotState`, of `Message<T::Response>` and of a pointer, the bytes of an object and the object
-- of its bytes.
pub record Layout (F : Type 0) : Type 0 where
  pub header : Header
  pub pointer_size : ℕ
  pub state_size : ℕ
  pub state_of : List ℕ → WireState F
  pub command_bytes : WireCommand F → List ℕ
  pub connect_bytes : (version udp_port command_id : ℕ) → List ℕ
  pub request_bytes : Request F → (command_id : ℕ) → List ℕ
  pub message_size : Command → ℕ
  pub response_of : Command → List ℕ → Response

-- The members of `Network`.
pub record Connection (S D A : Type 0) : Type 0 where
  pub tcp : Tcp S
  pub udp : Udp D A

module _ {S D A F B : Type 0} where
  abbrev over_tcp : Method (Exception F) (Tcp S) B → Method (Exception F) (Connection S D A) B
  over_tcp m c = ((m c.tcp).0, record c { tcp = (m c.tcp).1 })

  abbrev over_udp : Method (Exception F) (Udp D A) B → Method (Exception F) (Connection S D A) B
  over_udp m c = ((m c.udp).0, record c { udp = (m c.udp).1 })

module _ {S D A F : Type 0} (fuel : ℕ) (layout : Layout F) (stream : Socket S)
    (datagrams : DatagramSocket D A) where
  -- The class `Network`, with `fuel` for the reads of a blocking receive.
  abbrev pub robot_network : Network (Connection S D A) F
  robot_network = record {
    udp_port = λ c. c.udp.udp_port;
    udp_receive = over_udp (udp_receive datagrams layout.state_size layout.state_of);
    udp_blocking_receive =
        over_udp (udp_blocking_receive datagrams layout.state_size layout.state_of);
    udp_send = λ command. over_udp (udp_send datagrams (layout.command_bytes command));
    tcp_throw_if_connection_closed = over_tcp (tcp_throw_if_connection_closed stream);
    tcp_send_connect =
        λ version port. over_tcp (tcp_send_request stream (layout.connect_bytes version port));
    tcp_send_request = λ request. over_tcp (tcp_send_request stream (layout.request_bytes request));
    tcp_blocking_receive_response = λ command id. over_tcp (
        tcp_blocking_receive_response stream fuel layout.header (layout.message_size command) id
        >>= λ message. pure (layout.response_of command message));
    tcp_receive_response = λ command id handler. over_tcp (
        tcp_receive_response stream layout.header layout.pointer_size id
          (λ message. handler (layout.response_of command message)));
  }

-- The response that `Robot::Impl` waits for, on a TCP channel that keeps delivering: it is that of the
-- first message with the command id, and the UDP channel is left alone.
module _ {S D A F : Type 0} (layout : Layout F) (socket : Socket S) (datagrams : DatagramSocket D A)
    (coming : S → List ℕ) (stream : IsByteStream socket coming)
    (steady : IsSteady socket coming layout.header.size) (size : 0 < layout.header.size) where
  pub robot_network-arrives :
      (fuel : ℕ) (k : Command) (id : ℕ) (ms : List (List ℕ)) (c : Connection S D A) (m : List ℕ)
      → Holds coming layout.header ms c.tcp
      → find id c.tcp.received_responses ≡ none
      → message_for layout.header id ms ≡ some m
      → layout.message_size k ≤ layout.header.size_of m
      → length (coming c.tcp.tcp_socket) < fuel
      → (d : Connection S D A) × ((robot_network fuel layout socket
              datagrams).tcp_blocking_receive_response
            k id c
          ≡ (ok (layout.response_of k m), d))
        × (d.udp ≡ c.udp)
        × Holds coming layout.header (behind layout.header id ms) d.tcp
  robot_network-arrives fuel k id ms c m holds absent there fits enough =
      let (t, run, gone, left) =
        tcp_blocking_receive_response-arrives {F = F} socket coming stream layout.header steady size
          fuel (layout.message_size k) id ms c.tcp m holds absent there fits enough in
      (
        record c { tcp = t },
        ap (λ r. (r.0, record c { tcp = r.1 }))
            (after-run
              (tcp_blocking_receive_response socket fuel layout.header (layout.message_size k) id
                c.tcp)
              (λ message. pure (layout.response_of k message)) run),
        refl,
        left,
      )
