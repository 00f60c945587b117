-- ===== src/Tcp/Arrival.antt =====
-- `tcpBlockingReceiveResponse` on a connection on which the response is to come: it returns.
use mathlib.Core.Path.{subst}
use libfranka.Prelude.{
  ℕ, zero, suc, ◌≤◌, ◌<◌, ◌≡◌, ◌∙◌, inl, inr, refl, sym, ap, true, false, ltb, ◌==◌, Bool-cases,
  eq-true, Option, none, some, List, [], ◌∷◌, length, take, Result, ok, Method, pure, throw_if,
  modify, after-run, ◌>>◌, if◌then◌else◌, arith,
}
use libfranka.Exceptions.{Exception, protocol}
use libfranka.Tcp.Channel.{Socket, Header, Tcp, find, emplace, erase, tcp_read_from_buffer}
use libfranka.Tcp.Responses.{tcp_blocking_receive_response}
use libfranka.Tcp.Frames.{IsByteStream}
use libfranka.Tcp.Reads.{tcp_read_from_buffer-Adds}
use libfranka.Tcp.Steady.{IsSteady, tcp_read_from_buffer-steady}
use libfranka.Tcp.Messages.{Holds, more_to_come, Adds-Holds}

-- The first message with a command id in its header, and the messages behind it.
abbrev pub message_for : Header → ℕ → List (List ℕ) → Option (List ℕ)
message_for h id [] = none
message_for h id (m ∷ ms) =
    if h.command_id_of (take h.size m) == id then some m else message_for h id ms

abbrev pub behind : Header → ℕ → List (List ℕ) → List (List ℕ)
behind h id [] = []
behind h id (m ∷ ms) = if h.command_id_of (take h.size m) == id then ms else behind h id ms

find-emplace :
    (k id : ℕ) (m : List ℕ) (rs : List (ℕ × List ℕ))
    → k ≡ id
    → find id rs ≡ none
    → (find id (emplace k m rs) ≡ some m) × (find id (erase id (emplace k m rs)) ≡ none)
find-emplace k id m rs e absent =
    let same : (k == id) ≡ true = ground (arith, e) in
    let put : emplace k m rs ≡ (k, m) ∷ rs = entered (find k rs) (ap (λ x. find x rs) e ∙ absent) in
    (
      ap (find id) put ∙ ap (λ b. if b then some m else find id rs) same,
      ap (λ l. find id (erase id l)) put
          ∙ ap (λ b. find id (if b then rs else (k, m) ∷ erase id rs)) same
          ∙ absent,
    )
  where
    entered :
        (o : Option (List ℕ))
        → o ≡ none
        → (elim o [ none ↦ (k, m) ∷ rs | some _ ↦ rs ]) ≡ (k, m) ∷ rs
    entered none p = refl
    entered (some x) p = absurd (cc)

find-emplace_other :
    (k id : ℕ) (m : List ℕ) (rs : List (ℕ × List ℕ))
    → (k == id) ≡ false
    → find id rs ≡ none
    → find id (emplace k m rs) ≡ none
find-emplace_other k id m rs differs absent = either (find k rs)
  where
    either : (o : Option (List ℕ)) → find id (elim o [ none ↦ (k, m) ∷ rs | some _ ↦ rs ]) ≡ none
    either none = ap (λ b. if b then some m else find id rs) differs ∙ absent
    either (some x) = absent

module _ {S F : Type 0} (socket : Socket S) (coming : S → List ℕ)
    (stream : IsByteStream socket coming) (h : Header) (steady : IsSteady socket coming h.size)
    (size : 0 < h.size) where
  -- What the blocking receive does behind a read, by the response that it found.
  found : (fuel message_size id : ℕ) → Option (List ℕ) → Method (Exception F) (Tcp S) (List ℕ)
  found fuel message_size id none = tcp_blocking_receive_response socket fuel h message_size id
  found fuel message_size id (some message) =
      throw_if (ltb (h.size_of message) message_size)
        (protocol "libfranka: Incorrect TCP message size.")
      >> modify (λ (t : Tcp S). record t { received_responses = erase id t.received_responses })
      >> pure message

  blocking-read :
      (fuel message_size id : ℕ) (s t : Tcp S)
      → ◌≡◌ {A = Result (Exception F) (Unit {0}) × Tcp S}
          (tcp_read_from_buffer socket h 10000 s)
          (ok tt, t)
      → tcp_blocking_receive_response socket (suc fuel) h message_size id s
        ≡ found fuel message_size id (find id t.received_responses) t
  unfolding tcp_blocking_receive_response found
  blocking-read fuel message_size id s t e =
      after-run (tcp_read_from_buffer socket h 10000 s) _ e
      ∙ by_option (find id t.received_responses)
    where
      by_option :
          (o : Option (List ℕ))
          → (elim o as (λ _. Method (Exception F) (Tcp S) (List ℕ)) [
            | none ↦ tcp_blocking_receive_response socket fuel h message_size id
            | some message ↦
                throw_if
                  (ltb (h.size_of message) message_size)
                  (protocol "libfranka: Incorrect TCP message size.")
                >> modify
                    (λ (t : Tcp S). record t { received_responses = erase id t.received_responses })
                >> pure message
          ])
              t
            ≡ found fuel message_size id o t
      by_option none = refl
      by_option (some message) = refl

  -- The response is among the messages.
  receives_message :
      (fuel message_size id : ℕ) (t : Tcp S) (m : List ℕ)
      → find id t.received_responses ≡ some m
      → message_size ≤ h.size_of m
      → found fuel message_size id (find id t.received_responses) t
        ≡ (ok m, record t { received_responses = erase id t.received_responses })
  unfolding found
  receives_message fuel message_size id t m there fits =
      ap (λ o. found fuel message_size id o t) there
      ∙ ap
          (λ b.
            (throw_if b (protocol "libfranka: Incorrect TCP message size.")
                >> modify
                    (λ (t : Tcp S). record t { received_responses = erase id t.received_responses })
                >> pure m)
              t)
          (not_less (h.size_of m) message_size fits)
    where
      not_less : (x y : ℕ) → y ≤ x → ltb x y ≡ false
      not_less x y p = ground arith

  -- Let messages be under way and to come on a socket that keeps delivering, none of the responses kept
  -- for later have the command id, and a message with it be among them, whose header does not give it
  -- fewer bytes than the response has. With fuel for more reads than bytes to come,
  -- `tcpBlockingReceiveResponse` returns the first such message. Then no response is kept under this
  -- command id, and the messages behind it are those under way and to come.
  pub tcp_blocking_receive_response-arrives :
      (fuel message_size id : ℕ) (ms : List (List ℕ)) (s : Tcp S) (m : List ℕ)
      → Holds coming h ms s
      → find id s.received_responses ≡ none
      → message_for h id ms ≡ some m
      → message_size ≤ h.size_of m
      → length (coming s.tcp_socket) < fuel
      → (t : Tcp S) × (◌≡◌ {A = Result (Exception F) (List ℕ) × Tcp S}
          (tcp_blocking_receive_response socket fuel h message_size id s)
          (ok m, t))
        × (find id t.received_responses ≡ none)
        × Holds coming h (behind h id ms) t
  unfolding found
  tcp_blocking_receive_response-arrives zero message_size id ms s m holds absent there fits enough =
      elim (none_below enough) [ ]
    where
      none_below : {k : ℕ} → k < 0 → ⊥
      none_below p = omega arith
  tcp_blocking_receive_response-arrives (suc fuel) message_size id [] s m holds absent there fits
        enough =
      absurd (cc)
  tcp_blocking_receive_response-arrives (suc fuel) message_size id (m₁ ∷ ms) s m holds absent there
        fits enough =
      let (some_left, begins) = more_to_come coming h m₁ ms s size holds in
      let (t, reads, less) =
        tcp_read_from_buffer-steady {F = F} socket coming stream h steady 10000 s size holds.0
          some_left begins in
      let (b, came, framed, adds) =
        tcp_read_from_buffer-Adds {F = F} socket coming stream h 10000 s t size holds.0 reads in
      let run = blocking-read fuel message_size id s t reads in
      elim (Adds-Holds coming h b m₁ ms s t holds came framed adds) [
        | inl (kept, still) ↦
            let missing = ap (find id) kept ∙ absent in
            let (w, goes_on, gone, left) =
              tcp_blocking_receive_response-arrives fuel message_size id (m₁ ∷ ms) t m still missing
                there fits (omega (arith, less, enough)) in
            (w, run ∙ ap (λ o. found fuel message_size id o t) missing ∙ goes_on, gone, left)
        | inr (put, next) ↦ elim (Bool-cases (h.command_id_of (take h.size m₁) == id)) [
          | inl same ↦
              let first : m₁ ≡ m =
                let it : some m₁ ≡ some m =
                  ap (λ c. if c then some m₁ else message_for h id ms) (sym same) ∙ there in
                cc in
              let (kept, gone) =
                find-emplace (h.command_id_of (take h.size m₁)) id m₁ s.received_responses
                  (eq-true _ _ same) absent in
              (
                record t { received_responses = erase id t.received_responses },
                run
                    ∙ receives_message fuel message_size id t m
                        (ap (find id) put ∙ kept ∙ ap some first) fits,
                ap (λ r. find id (erase id r)) put ∙ gone,
                subst (λ l. Holds coming h l t)
                    (ap (λ c. if c then ms else behind h id ms) (sym same)) next,
              )
          | inr other ↦
              let missing =
                ap (find id) put
                ∙ find-emplace_other (h.command_id_of (take h.size m₁)) id m₁ s.received_responses
                    other absent in
              let (w, goes_on, gone, left) =
                tcp_blocking_receive_response-arrives fuel message_size id ms t m next missing
                  (ap (λ c. if c then some m₁ else message_for h id ms) (sym other) ∙ there) fits
                  (omega (arith, less, enough)) in
              (
                w,
                run ∙ ap (λ o. found fuel message_size id o t) missing ∙ goes_on,
                gone,
                subst (λ l. Holds coming h l w)
                    (ap (λ c. if c then ms else behind h id ms) (sym other)) left,
              )
        ]
      ]
