-- ===== src/Tcp/Channel.antt =====
-- The TCP half of `Network`, over a socket of the library Poco, which is a parameter. A byte is a
-- number below 256; an operation that locks the mutex is one step, and one that tries to lock it
-- asks whether another thread holds it.
use libfranka.Prelude.{
  ℕ, ◌+◌, ◌-◌, String, ◌<>◌, Bool, true, false, not, ◌&&◌, ltb, leb, ◌==◌, Option, none, some, List,
  [], ◌∷◌, length, replicate, Result, ok, raise, running, Method, pure, throw_if, ◌>>=◌, ◌>>◌, get,
  modify, if◌then◌else◌,
}
use libfranka.Exceptions.{Exception, network, protocol}
use libfranka.Tcp.Bytes.{write_at}

-- The calls of `Poco::Net::StreamSocket`, over its states. An exception is what its `what` says.
pub record Socket (S : Type 0) : Type 0 where
  pub poll_error : Method String S Bool
  pub poll_read : (timeout : ℕ) → Method String S Bool
  pub available : Method String S ℕ
  pub receive_bytes : (length : ℕ) → Method String S (List ℕ)
  pub peek : (length : ℕ) → Method String S ℕ  -- `receiveBytes` with `MSG_PEEK`: how many bytes there are
  pub send_bytes : List ℕ → Method String S (Unit {0})

-- `T::Header` in memory: its size, and its members read from its bytes.
pub record Header : Type 0 where
  pub size : ℕ
  pub command_id_of : List ℕ → ℕ
  pub size_of : List ℕ → ℕ

pub record Tcp (S : Type 0) : Type 0 where
  pub tcp_socket : S
  pub tcp_mutex : Bool  -- held by another thread
  pub command_id : ℕ  -- uint32_t
  pub pending_response : List ℕ
  pub pending_response_offset : ℕ
  pub pending_command_id : ℕ
  pub received_responses : List (ℕ × List ℕ)

abbrev pub is_empty : {A : Type 0} → List A → Bool
is_empty [] = true
is_empty (x ∷ xs) = false

-- `std::unordered_map`: `find`, `emplace`, which does not overwrite, and `erase`.
abbrev pub find : ℕ → List (ℕ × List ℕ) → Option (List ℕ)
find id [] = none
find id (r ∷ rs) = if r.0 == id then some r.1 else find id rs

abbrev pub emplace : ℕ → List ℕ → List (ℕ × List ℕ) → List (ℕ × List ℕ)
emplace id message rs = elim (find id rs) [ none ↦ (id, message) ∷ rs | some _ ↦ rs ]

abbrev pub erase : ℕ → List (ℕ × List ℕ) → List (ℕ × List ℕ)
erase id [] = []
erase id (r ∷ rs) = if r.0 == id then rs else r ∷ erase id rs

abbrev pub k_receive : String
k_receive = "libfranka: TCP receive: "

-- `catch (const Poco::Exception& e) { throw NetworkException(prefix + e.what()); }`
abbrev pub as_network : {F A : Type 0} → String → Result String A → Result (Exception F) A
as_network prefix (ok a) = ok a
as_network prefix (raise what) = raise (network (prefix <> what))
as_network prefix running = running

module _ {S : Type 0} where
  abbrev pub on_socket :
      {F A : Type 0} → String → Method String S A → Method (Exception F) (Tcp S) A
  on_socket prefix m s =
      (as_network prefix (m s.tcp_socket).0, record s { tcp_socket = (m s.tcp_socket).1 })

  -- The message is complete.
  abbrev pub deliver : Tcp S → Tcp S
  deliver s = record s {
    pending_response = [];
    pending_response_offset = 0;
    pending_command_id = 0;
    received_responses = emplace s.pending_command_id s.pending_response s.received_responses;
  }

  abbrev pub write_pending : List ℕ → Tcp S → Tcp S
  write_pending bs s = record s {
    pending_response = write_at s.pending_response_offset bs s.pending_response;
    pending_response_offset = s.pending_response_offset + length bs;
  }

  abbrev pub begin_message : Header → List ℕ → Tcp S → Tcp S
  begin_message h bs s = record s {
    pending_response = write_at 0 bs (replicate (h.size_of bs) 0);
    pending_response_offset = h.size;
    pending_command_id = h.command_id_of bs;
  }

module _ {S F : Type 0} (socket : Socket S) where
  unfoldable pub read_header : Header → Method (Exception F) (Tcp S) (Unit {0})
  unfolding write_at
  read_header h = do
    header ← on_socket k_receive (socket.receive_bytes h.size)
    throw_if (ltb (h.size_of header) h.size) (protocol "libfranka: Incorrect TCP message size.")
    modify (begin_message h header)

  -- The code casts the rest of the message to `int`, which keeps a number below 2 ^ 31; the rest of a
  -- longer message is a negative number there, and is not modelled.
  unfoldable pub read_payload : Method (Exception F) (Tcp S) (Unit {0})
  unfolding write_at
  read_payload = do
    s ← get
    now_available ← on_socket k_receive socket.available
    payload ← on_socket k_receive (
        socket.receive_bytes (
          let rest = length s.pending_response - s.pending_response_offset in
          if ltb rest now_available then rest else now_available))
    modify (write_pending payload)
    t ← get
    if t.pending_response_offset == length t.pending_response then modify deliver else pure tt

  -- `tcpReadFromBuffer<T>`
  unfoldable pub tcp_read_from_buffer :
      Header → (timeout : ℕ) → Method (Exception F) (Tcp S) (Unit {0})
  unfolding read_header read_payload
  tcp_read_from_buffer h timeout = do
    interrupted ← on_socket k_receive socket.poll_error
    throw_if interrupted (network "libfranka: TCP connection got interrupted.")
    readable ← on_socket k_receive (socket.poll_read timeout)
    if not readable
        then pure tt
        else (on_socket k_receive socket.available >>= λ available_bytes. get >>= λ s.
            (if is_empty s.pending_response && leb h.size available_bytes
              then read_header h
              else pure tt)
            >> get
            >>= λ t.
                if not (is_empty t.pending_response) && ltb 0 available_bytes
                then read_payload
                else pure tt)
