-- ===== src/Udp.antt =====
-- The UDP half of `Network` of src/network.h, over a socket of the library Poco, which is a
-- parameter. A byte is a number below 256; an operation that locks the mutex is one step.
pub mod Replies
use libfranka.Prelude.{
  ℕ, String, not, leb, ◌==◌, Option, none, some, List, length, Result, ok, raise, running, Method,
  pure, throw_if, ◌>>=◌, ◌>>◌, get, modify, if◌then◌else◌,
}
use libfranka.Exceptions.{Exception, poco, network, protocol}
use libfranka.Tcp.{as_network}

-- The calls of `Poco::Net::DatagramSocket`, over its states `D` and the addresses `A`: a receive also
-- yields the address of the sender, a send the number of bytes sent.
pub record DatagramSocket (D A : Type 0) : Type 0 where
  pub available : Method String D ℕ
  pub receive_from : (length : ℕ) → Method String D (List ℕ × A)
  pub send_to : List ℕ → A → Method String D ℕ

pub record Udp (D A : Type 0) : Type 0 where
  pub udp_socket : D
  pub udp_server_address : A
  pub udp_port : ℕ  -- uint16_t

module _ {D A : Type 0} where
  abbrev pub on_udp :
      {F B : Type 0}
      → (Result String B → Result (Exception F) B)
      → Method String D B
      → Method (Exception F) (Udp D A) B
  on_udp caught m s = (caught (m s.udp_socket).0, record s { udp_socket = (m s.udp_socket).1 })

-- A call outside any `try` of the class.
abbrev pub uncaught : {F A : Type 0} → Result String A → Result (Exception F) A
uncaught (ok a) = ok a
uncaught (raise what) = raise (poco what)
uncaught running = running

module _ {D A F : Type 0} (socket : DatagramSocket D A) where
  -- `udpBlockingReceiveUnsafe<T>`, with the size of `T` and its value from its bytes.
  unfoldable pub udp_blocking_receive :
      {W : Type 0} → (size : ℕ) → (List ℕ → W) → Method (Exception F) (Udp D A) W
  udp_blocking_receive size value_of = do
    received ← on_udp (as_network "libfranka: UDP receive: ") (socket.receive_from size)
    modify (λ s. record s { udp_server_address = received.1 })
    throw_if (not (length received.0 == size)) (protocol "libfranka: incorrect object size")
    pure (value_of received.0)

  -- `udpReceive<T>`, false as `none`.
  unfoldable pub udp_receive :
      {W : Type 0} → (size : ℕ) → (List ℕ → W) → Method (Exception F) (Udp D A) (Option W)
  unfolding udp_blocking_receive
  udp_receive size value_of = do
    available ← on_udp uncaught socket.available
    if leb size available
        then (udp_blocking_receive size value_of >>= λ value. pure (some value))
        else pure none

  -- `udpSend<T>`, given the bytes of the data.
  unfoldable pub udp_send : List ℕ → Method (Exception F) (Udp D A) (Unit {0})
  udp_send bytes = do
    s ← get
    bytes_sent ←
        on_udp (as_network "libfranka: UDP send: ") (socket.send_to bytes s.udp_server_address)
    throw_if (not (bytes_sent == length bytes)) (network "libfranka: could not send UDP data")
