-- ===== src/Tcp/Steady.antt =====
-- A socket on which the bytes keep coming: every read of `tcpReadFromBuffer` returns and takes some.
use mathlib.Core.Path.{subst}
use libfranka.Prelude.{
  after, get, throw_if, ◌>>◌, ◌>>=◌, ℕ, ◌+◌, ◌-◌, ◌≤◌, ◌<◌, ◌≡◌, ◌∙◌, ◌⊎◌, inl, inr, refl, sym, ap,
  String, Bool, true, false, not, ◌&&◌, ltb, leb, ◌==◌, List, [], length, length-append, take,
  Result, ok, Method, pure, eq_of_fst, after-run, modify, if◌then◌else◌, arith,
}
use libfranka.Tcp.Bytes.{take_all}
use libfranka.Exceptions.{Exception}
use libfranka.Tcp.Channel.{
  Socket, Header, Tcp, is_empty, as_network, on_socket, begin_message, deliver, write_pending,
  k_receive, read_header, read_payload, tcp_read_from_buffer,
}
use libfranka.Tcp.Frames.{IsByteStream, IsFramed, HasBegun}
use libfranka.Tcp.Headers.{not_empty, HasBegun-begin_message}

-- The connection is not interrupted; while bytes are to come, the socket is readable, some of them are
-- available, and `header_size` of them if so many are to come; what is available can be received.
pub record IsSteady {S : Type 0} (socket : Socket S) (coming : S → List ℕ) (header_size : ℕ)
    : Type 0 where
  pub unbroken : (s : S) → (socket.poll_error s).0 ≡ ok false
  pub readable :
      (timeout : ℕ) (s : S) → 0 < length (coming s) → (socket.poll_read timeout s).0 ≡ ok true
  pub offers :
      (s : S)
      → (a : ℕ) × ((socket.available s).0 ≡ ok a)
        × (0 < length (coming s) → 0 < a)
        × (header_size ≤ length (coming s) → header_size ≤ a)
  pub gives :
      (n a : ℕ) (s : S)
      → (socket.available s).0 ≡ ok a
      → n ≤ a
      → (bs : List ℕ) × ((socket.receive_bytes n (socket.available s).1).0 ≡ ok bs)

module _ {S F : Type 0} where
  on_socket-run :
      {A : Type 0} (m : Method String S A) (s : Tcp S) {a : A}
      → (m s.tcp_socket).0 ≡ ok a
      → ◌≡◌ {A = Result (Exception F) A × Tcp S}
          (on_socket k_receive m s)
          (ok a, record s { tcp_socket = (m s.tcp_socket).1 })
  on_socket-run m s e =
      ap (λ r. (as_network {F = F} k_receive r, record s { tcp_socket = (m s.tcp_socket).1 })) e

  -- The end of `read_payload`.
  ending :
      (c : Bool) (s : Tcp S)
      → (t : Tcp S) × (◌≡◌ {A = Result (Exception F) (Unit {0}) × Tcp S}
          ((if c then modify deliver else pure tt) s)
          (ok tt, t))
        × (t.tcp_socket ≡ s.tcp_socket)
  ending true s = (deliver s, refl, refl)
  ending false s = (s, refl, refl)

-- A guard that lets through, and a call with the state behind it.
let_through :
    {E S B : Type 0} (b : Bool) (e : E) (k : Method E S B) (s : S)
    → b ≡ false
    → (throw_if b e >> k) s ≡ k s
let_through true e k s h = absurd (cc)
let_through false e k s h = refl

seen-run :
    {E S B : Type 0} (r : Result E (Unit {0}) × S) (f : S → Method E S B) {w : S}
    → r ≡ (ok tt, w)
    → after (after r.0 r.1 (λ _. get)).0 (after r.0 r.1 (λ _. get)).1 f ≡ f w w
seen-run r f e = ap (λ x. after (after x.0 x.1 (λ _. get)).0 (after x.0 x.1 (λ _. get)).1 f) e

-- Between two reads there is no message, or a buffer that waits for more.
framed_cases :
    {S : Type 0} (h : Header) (s : Tcp S)
    → IsFramed h s
    → (s.pending_response ≡ [])
      ⊎ ((0 < length s.pending_response) × (s.pending_response_offset < length s.pending_response))
framed_cases h s (inl (none_yet, _)) = inl none_yet
framed_cases h s (inr (begun, short)) = inr (omega (arith, short), short)

module _ {S F : Type 0} (socket : Socket S) (coming : S → List ℕ)
    (stream : IsByteStream socket coming) (h : Header)
    (steady : IsSteady socket coming h.size) where
  -- The payload: what comes is not more than before, and less if the message needs more bytes.
  read_payload-steady :
      (s : Tcp S)
      → (t : Tcp S) × (◌≡◌ {A = Result (Exception F) (Unit {0}) × Tcp S}
          (read_payload socket s)
          (ok tt, t))
        × (length (coming t.tcp_socket) ≤ length (coming s.tcp_socket))
        × (0 < length (coming s.tcp_socket)
            → s.pending_response_offset < length s.pending_response
            → length (coming t.tcp_socket) < length (coming s.tcp_socket))
  unfolding read_payload
  read_payload-steady s =
      let (now, there, some_now, _) = steady.offers s.tcp_socket in
      let rest = length s.pending_response - s.pending_response_offset in
      let wanted : ℕ = (if ltb rest now then rest else now) in
      let u : Tcp S = record s { tcp_socket = (socket.available s.tcp_socket).1 } in
      let (bs, got) = steady.gives wanted now s.tcp_socket there (at_most rest now) in
      let exact = stream.fills wanted now s.tcp_socket bs there (at_most rest now) got in
      let v : Tcp S = record u { tcp_socket = (socket.receive_bytes wanted u.tcp_socket).1 } in
      let (came, _) =
        stream.receives wanted u.tcp_socket v.tcp_socket bs
          (eq_of_fst (socket.receive_bytes wanted u.tcp_socket) got) in
      let w = write_pending bs v in
      let (t, ends, same) =
        ending {F = F} (w.pending_response_offset == length w.pending_response) w in
      let fewer : length (coming s.tcp_socket) ≡ length bs + length (coming t.tcp_socket) =
        ap length (sym (stream.looks s.tcp_socket) ∙ came)
        ∙ length-append bs (coming v.tcp_socket)
        ∙ ap (λ c. length bs + length (coming c)) (sym same) in
      (
        t,
        after-run (on_socket k_receive socket.available s) _
              (on_socket-run socket.available s there)
            ∙ after-run (on_socket k_receive (socket.receive_bytes wanted) u) _
                (on_socket-run (socket.receive_bytes wanted) u got)
            ∙ ends,
        omega (arith, fewer),
        λ some_left short.
            (let taken : 0 < wanted =
                positive (length s.pending_response) s.pending_response_offset now short
                  (some_now some_left) in
              omega (arith, fewer, exact, taken)),
      )
    where
      at_most : (rest now : ℕ) → (if ltb rest now then rest else now) ≤ now
      at_most rest now = ground arith

      positive : (l o now : ℕ) → o < l → 0 < now → 0 < (if ltb (l - o) now then l - o else now)
      positive l o now p q = ground arith

  -- A header whose size is not too small.
  read_header-steady :
      (a : ℕ) (c : S) (s : Tcp S)
      → (socket.available c).0 ≡ ok a
      → s.tcp_socket ≡ (socket.available c).1
      → h.size ≤ a
      → h.size ≤ h.size_of (take h.size (coming s.tcp_socket))
      → (t : Tcp S) × (◌≡◌ {A = Result (Exception F) (Unit {0}) × Tcp S}
          (read_header socket h s)
          (ok tt, t))
        × HasBegun h t
        × (length (coming s.tcp_socket) ≡ h.size + length (coming t.tcp_socket))
  unfolding read_header
  read_header-steady a c s there here enough fits =
      let (bs, given) = steady.gives h.size a c there enough in
      let whole = stream.fills h.size a c bs there enough given in
      let got : (socket.receive_bytes h.size s.tcp_socket).0 ≡ ok bs =
        ap (λ x. (socket.receive_bytes h.size x).0) here ∙ given in
      let u : Tcp S = record s { tcp_socket = (socket.receive_bytes h.size s.tcp_socket).1 } in
      let (came, _) =
        stream.receives h.size s.tcp_socket u.tcp_socket bs
          (eq_of_fst (socket.receive_bytes h.size s.tcp_socket) got) in
      let first : take h.size (coming s.tcp_socket) ≡ bs =
        ap (take h.size) came ∙ take_all h.size bs (coming u.tcp_socket) whole in
      let enough_said : h.size ≤ h.size_of bs = subst (λ l. h.size ≤ h.size_of l) first fits in
      let passes : ltb (h.size_of bs) h.size ≡ false = not_less (h.size_of bs) h.size enough_said in
      (
        begin_message h bs u,
        after-run (on_socket k_receive (socket.receive_bytes h.size) s) _
              (on_socket-run (socket.receive_bytes h.size) s got)
            ∙ let_through (ltb (h.size_of bs) h.size) _ (modify (begin_message h bs)) u passes,
        (HasBegun-begin_message h bs u whole enough_said).0,
        ap length came
            ∙ length-append bs (coming u.tcp_socket)
            ∙ ap (λ n. n + length (coming u.tcp_socket)) whole,
      )
    where
      not_less : (x y : ℕ) → y ≤ x → ltb x y ≡ false
      not_less x y p = ground arith

  -- Every read returns and takes bytes while some are to come. Where a message begins, its header is to
  -- come whole and has a size that is not too small.
  pub tcp_read_from_buffer-steady :
      (timeout : ℕ) (s : Tcp S)
      → 0 < h.size
      → IsFramed h s
      → 0 < length (coming s.tcp_socket)
      → (s.pending_response ≡ []
          → (h.size ≤ length (coming s.tcp_socket))
            × (h.size ≤ h.size_of (take h.size (coming s.tcp_socket))))
      → (t : Tcp S) × (◌≡◌ {A = Result (Exception F) (Unit {0}) × Tcp S}
          (tcp_read_from_buffer socket h timeout s)
          (ok tt, t))
        × (length (coming t.tcp_socket) < length (coming s.tcp_socket))
  unfolding tcp_read_from_buffer
  tcp_read_from_buffer-steady timeout s size framed some_left begins =
      let u : Tcp S = record s { tcp_socket = (socket.poll_error s.tcp_socket).1 } in
      let v : Tcp S = record u { tcp_socket = (socket.poll_read timeout u.tcp_socket).1 } in
      let quiet = stream.polls_error s.tcp_socket in
      let still : coming v.tcp_socket ≡ coming s.tcp_socket =
        stream.polls_read timeout u.tcp_socket ∙ quiet in
      let ready =
        steady.readable timeout u.tcp_socket (subst (λ l. 0 < length l) (sym quiet) some_left) in
      let (a, there, some_now, header_now) = steady.offers v.tcp_socket in
      let now = some_now (subst (λ l. 0 < length l) (sym still) some_left) in
      let x : Tcp S = record v { tcp_socket = (socket.available v.tcp_socket).1 } in
      let unmoved : coming x.tcp_socket ≡ coming s.tcp_socket = stream.looks v.tcp_socket ∙ still in
      let polled : ◌≡◌ {A = Result (Exception F) (Unit {0}) × Tcp S}
          (tcp_read_from_buffer socket h timeout s)
          (((if is_empty s.pending_response && leb h.size a then read_header socket h else pure tt)
              >> get
              >>= rest a)
            x) =
        after-run (on_socket k_receive socket.poll_error s) _
          (on_socket-run socket.poll_error s (steady.unbroken s.tcp_socket))
        ∙ after-run (on_socket k_receive (socket.poll_read timeout) u) _
            (on_socket-run (socket.poll_read timeout) u ready)
        ∙ after-run (on_socket k_receive socket.available v) _
            (on_socket-run socket.available v there) in
      elim (framed_cases h s framed) [
        | inl none_yet ↦
            let (whole, fits) = begins none_yet in
            let enough = header_now (subst (λ l. h.size ≤ length l) (sym still) whole) in
            let (w, reads, begun, less) =
              read_header-steady a v.tcp_socket x there refl enough
                (subst (λ l. h.size ≤ h.size_of (take h.size l)) (sym unmoved) fits) in
            let (t, pays, no_more, _) = read_payload-steady w in
            let c₁ : (is_empty s.pending_response && leb h.size a) ≡ true =
              ap (λ p. is_empty p && leb h.size a) none_yet ∙ at_least h.size a enough in
            let c₂ = goes_on w.pending_response a now (omega (arith, size, begun.0, begun.1)) in
            (
              t,
              polled
                  ∙ ap (λ c. ((if c then read_header socket h else pure tt) >> get >>= rest a) x) c₁
                  ∙ seen-run (read_header socket h x) (rest a) reads
                  ∙ ap (λ c. (if c then read_payload socket else pure tt) w) c₂
                  ∙ pays,
              omega (arith, size, less, no_more, ap length unmoved),
            )
        | inr (full, short) ↦
            let (t, pays, _, less) = read_payload-steady x in
            let c₁ : (is_empty s.pending_response && leb h.size a) ≡ false =
              ap (λ b. b && leb h.size a) (not_empty s.pending_response full) in
            let c₂ = goes_on s.pending_response a now full in
            (
              t,
              polled
                  ∙ ap (λ c. ((if c then read_header socket h else pure tt) >> get >>= rest a) x) c₁
                  ∙ ap (λ c. (if c then read_payload socket else pure tt) x) c₂
                  ∙ pays,
              omega (
                arith,
                ap length unmoved,
                less (subst (λ l. 0 < length l) (sym unmoved) some_left) short,
              ),
            )
      ]
    where
      rest : ℕ → Tcp S → Method (Exception F) (Tcp S) (Unit {0})
      rest a t =
          if not (is_empty t.pending_response) && ltb 0 a then read_payload socket else pure tt

      at_least : (x y : ℕ) → x ≤ y → leb x y ≡ true
      at_least x y p = ground arith

      goes_on :
          (xs : List ℕ) (a : ℕ) → 0 < a → 0 < length xs → (not (is_empty xs) && ltb 0 a) ≡ true
      goes_on xs a p q = ap (λ b. not b && ltb 0 a) (not_empty xs q) ∙ positive a p
        where
          positive : (k : ℕ) → 0 < k → ltb 0 k ≡ true
          positive k z = ground arith
