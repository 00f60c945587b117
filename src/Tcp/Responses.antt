-- ===== src/Tcp/Responses.antt =====
-- The requests and the responses over the TCP channel.
use libfranka.Prelude.{
  ℕ, zero, suc, ◌+◌, ◌%◌, ◌^◌, Bool, true, false, ltb, Option, none, some, List, Result, Method,
  pure, throw_if, if◌then◌else◌, ◌==◌, diverge, ◌>>=◌, ◌>>◌, get, modify,
}
use libfranka.Exceptions.{Exception, network, protocol}
use libfranka.Tcp.Channel.{Socket, Header, Tcp, find, erase, on_socket, tcp_read_from_buffer}

module _ {S F : Type 0} (socket : Socket S) where
  -- `tcpSendRequest<T>`; `message` is the message of the request with a command id.
  unfoldable pub tcp_send_request : (message : ℕ → List ℕ) → Method (Exception F) (Tcp S) ℕ
  tcp_send_request message = do
    s ← get
    modify (λ t. record t { command_id = (s.command_id + 1) % 2 ^ 32 })
    on_socket "libfranka: TCP send bytes: " (socket.send_bytes (message s.command_id))
    pure s.command_id

  -- What `tcpReceiveResponse` does with the message that it found. It compares with the size of a
  -- pointer, where the message was meant.
  unfoldable pub handle_message :
      Header
      → (pointer_size id : ℕ) → (List ℕ → Result (Exception F) (Unit {0}))
      → Option (List ℕ)
      → Method (Exception F) (Tcp S) Bool
  handle_message h pointer_size id handler none = pure false
  handle_message h pointer_size id handler (some message) = do
    throw_if (ltb (h.size_of message) pointer_size)
        (protocol "libfranka: Incorrect TCP message size.")
    (λ s. (handler message, s))
    modify (λ s. record s { received_responses = erase id s.received_responses })
    pure true

  unfoldable pub tcp_receive_response :
      Header
      → (pointer_size id : ℕ) → (List ℕ → Result (Exception F) (Unit {0}))
      → Method (Exception F) (Tcp S) Bool
  unfolding handle_message
  tcp_receive_response h pointer_size id handler = do
    t ← get
    if t.tcp_mutex
        then pure false
        else (tcp_read_from_buffer socket h 0 >> get >>= λ s.
            handle_message h pointer_size id handler (find id s.received_responses))

  -- `tcpBlockingReceiveResponse<T>`: the whole message, with what follows the response in it.
  unfoldable pub tcp_blocking_receive_response :
      (fuel : ℕ) → Header → (message_size id : ℕ) → Method (Exception F) (Tcp S) (List ℕ)
  tcp_blocking_receive_response zero h message_size id = diverge
  tcp_blocking_receive_response (suc fuel) h message_size id = do
    tcp_read_from_buffer socket h 10000
    s ← get
    elim (find id s.received_responses) [
      | none ↦ tcp_blocking_receive_response fuel h message_size id
      | some message ↦
          throw_if (ltb (h.size_of message) message_size)
            (protocol "libfranka: Incorrect TCP message size.")
          >> modify (λ t. record t { received_responses = erase id t.received_responses })
          >> pure message
    ]

  -- `tcpThrowIfConnectionClosed`
  unfoldable pub tcp_throw_if_connection_closed : Method (Exception F) (Tcp S) (Unit {0})
  tcp_throw_if_connection_closed = do
    t ← get
    if t.tcp_mutex
        then pure tt
        else (on_socket "libfranka: " (socket.poll_read 0) >>= λ readable.
            if readable
            then (on_socket "libfranka: " (socket.peek 1) >>= λ rv.
                throw_if (rv == 0) (network "libfranka: server closed connection"))
            else pure tt)
