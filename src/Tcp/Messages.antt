-- ===== src/Tcp/Messages.antt =====
-- What a read does to a stream that consists of messages.
use libfranka.Prelude.{
  ℕ, zero, suc, ◌+◌, ◌≤◌, ◌<◌, ◌≡◌, ◌∙◌, ◌⊎◌, inl, inr, refl, sym, ap, List, [], ◌∷◌, ◌++◌,
  append_assoc, length, length-append, take, arith,
}
use libfranka.Tcp.Bytes.{take-append, take-take, length-take_le}
use libfranka.Tcp.Channel.{Header, Tcp, emplace}
use libfranka.Tcp.Frames.{partial, IsFramed, Adds}

-- A message is not shorter than its header and as long as its header says.
abbrev pub IsMessage : Header → List ℕ → Type 0
IsMessage h m = (h.size ≤ length m) × (length m ≡ h.size_of (take h.size m))

abbrev pub AreMessages : Header → List (List ℕ) → Type 0
AreMessages h [] = Unit
AreMessages h (m ∷ ms) = IsMessage h m × AreMessages h ms

abbrev pub concat : List (List ℕ) → List ℕ
concat [] = []
concat (m ∷ ms) = m ++ concat ms

cancel :
    {A : Type 0} (n : ℕ) (xs ys : List A) {us vs : List A}
    → length xs ≡ n
    → length ys ≡ n
    → xs ++ us ≡ ys ++ vs
    → (xs ≡ ys) × (us ≡ vs)
cancel zero [] [] p q e = (refl, e)
cancel zero (x ∷ xs) ys p q e = absurd (cc)
cancel zero [] (y ∷ ys) p q e = absurd (cc)
cancel (suc n) [] ys p q e = absurd (cc)
cancel (suc n) (x ∷ xs) [] p q e = absurd (cc)
cancel (suc n) (x ∷ xs) (y ∷ ys) {us = us} {vs = vs} p q e =
    let same : x ≡ y = cc in
    let behind : xs ++ us ≡ ys ++ vs = cc in
    let (front, back) =
      cancel n xs ys {us = us} {vs = vs} (omega (arith, p)) (omega (arith, q)) behind in
    (ap (λ l. x ∷ l) front ∙ ap (λ z. z ∷ ys) same, back)

module _ {S : Type 0} (coming : S → List ℕ) (h : Header) where
  -- Between two reads, the message under way and the bytes to come are the messages `ms`.
  abbrev pub Holds : List (List ℕ) → Tcp S → Type 0
  Holds ms s = IsFramed h s × AreMessages h ms × (partial s ++ coming s.tcp_socket ≡ concat ms)

  -- A message is under way or to come, so bytes are to come; where it begins, its header comes first.
  pub more_to_come :
      (m : List ℕ) (ms : List (List ℕ)) (s : Tcp S)
      → 0 < h.size
      → Holds (m ∷ ms) s
      → (0 < length (coming s.tcp_socket))
        × (s.pending_response ≡ []
            → (h.size ≤ length (coming s.tcp_socket))
              × (h.size ≤ h.size_of (take h.size (coming s.tcp_socket))))
  more_to_come m ms s size (inl (none_yet, at_start), ((room, sized), others), whole) =
      let begins : coming s.tcp_socket ≡ m ++ concat ms =
        sym (ap (λ o. take o s.pending_response ++ coming s.tcp_socket) at_start) ∙ whole in
      let long : length (coming s.tcp_socket) ≡ length m + length (concat ms) =
        ap length begins ∙ length-append m (concat ms) in
      let first : take h.size (coming s.tcp_socket) ≡ take h.size m =
        ap (take h.size) begins ∙ take-append h.size m (concat ms) room in
      (
        omega (arith, long, room, size),
        λ _. (omega (arith, long, room), omega (arith, room, sized, ap h.size_of first)),
      )
  more_to_come m ms s size
        (inr ((low, high, sized_pending, named), short), ((room, sized), others), whole) =
      let o = s.pending_response_offset in
      let part : length (partial s) ≡ o = length-take_le o s.pending_response high in
      let first : take h.size s.pending_response ≡ take h.size m =
        sym (take-take h.size o s.pending_response low)
        ∙ sym (take-append h.size (partial s) (coming s.tcp_socket) (omega (arith, low, part)))
        ∙ ap (take h.size) whole
        ∙ take-append h.size m (concat ms) room in
      let expects : length s.pending_response ≡ length m =
        sized_pending ∙ ap h.size_of first ∙ sym sized in
      let long : length (partial s) + length (coming s.tcp_socket) ≡ length m + length (concat ms) =
        sym (length-append (partial s) (coming s.tcp_socket))
        ∙ ap length whole
        ∙ length-append m (concat ms) in
      (
        omega (arith, part, expects, long, short),
        λ none_yet. elim (none_short (ap length none_yet) short) [ ],
      )
    where
      none_short : {o l : ℕ} → l ≡ 0 → o < l → ⊥
      none_short p q = omega arith

  -- A read leaves the messages, or delivers the first of them.
  pub Adds-Holds :
      (b m : List ℕ) (ms : List (List ℕ)) (s t : Tcp S)
      → Holds (m ∷ ms) s
      → coming s.tcp_socket ≡ b ++ coming t.tcp_socket
      → IsFramed h t
      → Adds h b s t
      → ((t.received_responses ≡ s.received_responses) × Holds (m ∷ ms) t)
        ⊎ ((t.received_responses ≡ emplace (h.command_id_of (take h.size m)) m s.received_responses)
            × Holds ms t)
  Adds-Holds b m ms s t (framed, all, whole) came framed' (inl (kept, part)) = inl (
    kept,
    (
      framed',
      all,
      ap (λ p. p ++ coming t.tcp_socket) part
          ∙ append_assoc (partial s) b (coming t.tcp_socket)
          ∙ ap (λ c. partial s ++ c) (sym came)
          ∙ whole,
    ),
  )
  Adds-Holds b m ms s t (framed, ((room, sized), others), whole) came framed'
        (inr (low, complete, over, put)) =
      let l = partial s ++ b in
      let all : l ++ coming t.tcp_socket ≡ m ++ concat ms =
        append_assoc (partial s) b (coming t.tcp_socket)
        ∙ ap (λ c. partial s ++ c) (sym came)
        ∙ whole in
      let first : take h.size l ≡ take h.size m =
        sym (take-append h.size l (coming t.tcp_socket) low)
        ∙ ap (take h.size) all
        ∙ take-append h.size m (concat ms) room in
      let long : length l ≡ length m = complete ∙ ap h.size_of first ∙ sym sized in
      let (same, left) = cancel (length m) l m long refl all in
      inr (
        put ∙ ap (λ x. emplace (h.command_id_of (take h.size x)) x s.received_responses) same,
        (framed', others, ap (λ p. p ++ coming t.tcp_socket) over ∙ left),
      )
