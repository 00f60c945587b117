-- ===== src/Tests/Frames.antt =====
-- A message that arrives in two pieces. The header is two bytes, a command id and the size.
use libfranka.Prelude.{
  none, ℕ, zero, suc, ◌≤◌, ◌≡◌, ◌++◌, refl, inl, String, true, false, List, [], ◌∷◌, length, take,
  drop, get_or, Result, ok, arith, ap,
}
use libfranka.Tcp.Ids.{ids_from, AllDiffer, send_all, tcp_send_request-AllDiffer}
use libfranka.Tcp.Steady.{IsSteady}
use libfranka.Tcp.Messages.{Holds}
use libfranka.Tcp.Arrival.{behind, tcp_blocking_receive_response-arrives}
use libfranka.Tcp.{
  tcp_send_request, tcp_blocking_receive_response, find, Socket, Header, Tcp, tcp_read_from_buffer,
  read_header, read_payload, write_at,
}
use libfranka.Tcp.Frames.{IsByteStream, IsFramed, Adds}
use libfranka.Tcp.Reads.{tcp_read_from_buffer-Adds}

abbrev pub pipe : Socket (List ℕ)
pipe = record {
  poll_error = λ s. (ok false, s);
  poll_read = λ timeout s. (ok true, s);
  available = λ s. (ok (length s), s);
  receive_bytes = λ n s. (ok (take n s), drop n s);
  peek = λ n s. (ok (length (take n s)), s);
  send_bytes = λ bs s. (ok tt, s);
}

take-drop : (n : ℕ) (s : List ℕ) → s ≡ take n s ++ drop n s
take-drop zero s = refl
take-drop (suc n) [] = refl
take-drop (suc n) (x ∷ s) = ap (λ l. x ∷ l) (take-drop n s)

length-take_at_most : (n : ℕ) (s : List ℕ) → length (take n s) ≤ n
length-take_at_most zero s = omega arith
length-take_at_most (suc n) [] = omega arith
length-take_at_most (suc n) (x ∷ s) = omega (arith, length-take_at_most n s)

length-take_whole : (n : ℕ) (s : List ℕ) → n ≤ length s → length (take n s) ≡ n
length-take_whole zero s h = refl
length-take_whole (suc n) [] h = elim (none_below n h) [ ]
  where
    none_below : (k : ℕ) → suc k ≤ 0 → ⊥
    none_below k q = omega arith
length-take_whole (suc n) (x ∷ s) h = ap suc (length-take_whole n s (omega (arith, h)))

pipe-IsByteStream : IsByteStream pipe (λ s. s)
pipe-IsByteStream = record {
  polls_error = λ s. refl;
  polls_read = λ timeout s. refl;
  looks = λ s. refl;
  receives = λ n s t bs e. received n s t bs e;
  fills = λ n a s bs e l f. filled_up n a s bs e l f;
}
  where
    received :
        (n : ℕ) (s t bs : List ℕ)
        → ◌≡◌ {A = Result String (List ℕ) × List ℕ} (ok (take n s), drop n s) (ok bs, t)
        → (s ≡ bs ++ t) × (length bs ≤ n)
    received n s t bs e =
        let front : take n s ≡ bs = cc in
        let back : drop n s ≡ t = cc in
        (rw (← front, ← back) (take-drop n s), rw (← front) (length-take_at_most n s))

    filled_up :
        (n a : ℕ) (s bs : List ℕ)
        → ◌≡◌ {A = Result String ℕ} (ok (length s)) (ok a)
        → n ≤ a
        → ◌≡◌ {A = Result String (List ℕ)} (ok (take n s)) (ok bs)
        → length bs ≡ n
    filled_up n a s bs e l f =
        let front : take n s ≡ bs = cc in
        let long : length s ≡ a = cc in
        rw (← front) (length-take_whole n s (omega (arith, l, long)))

abbrev pub small_header : Header
small_header = record {
  size = 2;
  command_id_of = λ bs. get_or bs 0 0;
  size_of = λ bs. get_or bs 1 0;
}

-- Three of the four bytes of a message.
abbrev piece : Tcp (List ℕ)
piece = record {
  tcp_socket = 7 ∷ 4 ∷ 1 ∷ [];
  tcp_mutex = false;
  command_id = 8;
  pending_response = [];
  pending_response_offset = 0;
  pending_command_id = 0;
  received_responses = [];
}

abbrev after_piece : Tcp (List ℕ)
after_piece = (tcp_read_from_buffer {F = ℕ} pipe small_header 0 piece).1

tcp_read_from_buffer-Adds_example :
    (b : List ℕ) × (piece.tcp_socket ≡ b ++ after_piece.tcp_socket)
    × IsFramed small_header after_piece
    × Adds small_header b piece after_piece
unfolding tcp_read_from_buffer read_header read_payload write_at
tcp_read_from_buffer-Adds_example =
    tcp_read_from_buffer-Adds {F = ℕ} pipe (λ s. s) pipe-IsByteStream small_header 0 piece
      after_piece (omega arith) (inl (refl, refl)) refl

pipe-IsSteady : IsSteady pipe (λ s. s) 2
pipe-IsSteady = record {
  unbroken = λ s. refl;
  readable = λ timeout s p. refl;
  offers = λ s. (length s, refl, (λ p. p), (λ p. p));
  gives = λ n a s e l. (take n s, refl);
}

-- The responses to two requests.
abbrev two_responses : Tcp (List ℕ)
two_responses = record {
  tcp_socket = 7 ∷ 4 ∷ 1 ∷ 2 ∷ 8 ∷ 3 ∷ 5 ∷ [];
  tcp_mutex = false;
  command_id = 9;
  pending_response = [];
  pending_response_offset = 0;
  pending_command_id = 0;
  received_responses = [];
}

abbrev both_messages : List (List ℕ)
both_messages = (7 ∷ 4 ∷ 1 ∷ 2 ∷ []) ∷ (8 ∷ 3 ∷ 5 ∷ []) ∷ []

-- The second is waited for.
tcp_blocking_receive_response-arrives_example :
    (t : Tcp (List ℕ)) × (tcp_blocking_receive_response {F = ℕ} pipe 8 small_header 3 8
        two_responses
      ≡ (ok (8 ∷ 3 ∷ 5 ∷ []), t))
    × (find 8 t.received_responses ≡ none)
    × Holds (λ s. s) small_header (behind small_header 8 both_messages) t
tcp_blocking_receive_response-arrives_example =
    tcp_blocking_receive_response-arrives {F = ℕ} pipe (λ s. s) pipe-IsByteStream small_header
      pipe-IsSteady (omega arith) 8 3 8 both_messages two_responses (8 ∷ 3 ∷ 5 ∷ [])
      (inl (refl, refl), ((omega arith, refl), ((omega arith, refl), tt)), refl) refl refl
      (omega arith) (omega arith)

-- The last id and the first.
tcp_send_request-AllDiffer_example :
    (4294967295 ∷ 0 ∷ [] ≡ ids_from 2 4294967295) × AllDiffer (4294967295 ∷ 0 ∷ [])
unfolding send_all tcp_send_request
tcp_send_request-AllDiffer_example =
    tcp_send_request-AllDiffer {F = ℕ} pipe ((λ id. id ∷ []) ∷ (λ id. id ∷ []) ∷ [])
      (record two_responses { command_id = 4294967295 }) (record two_responses { command_id = 1 })
      (4294967295 ∷ 0 ∷ []) (omega arith) (omega arith) refl
