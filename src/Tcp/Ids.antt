-- ===== src/Tcp/Ids.antt =====
-- The command ids of the requests, which count modulo 2 ^ 32.
use mathlib.Core.Path.{subst}
use libfranka.Prelude.{
  ℕ, zero, suc, ◌+◌, ◌%◌, ◌^◌, ◌≤◌, ◌<◌, ◌≡◌, ◌≢◌, ◌∙◌, sym, ap, List, [], ◌∷◌, length, Result, ok,
  Method, pure, ok_injective, after-eq-ok, eq_of_fst, ◌>>=◌, arith,
}
use libfranka.Exceptions.{Exception}
use libfranka.Tcp.Channel.{Socket, Tcp, on_socket}
use libfranka.Tcp.Responses.{tcp_send_request}

-- `x` is none of the numbers, and the numbers differ.
abbrev pub NotIn : ℕ → List ℕ → Type 0
NotIn x [] = Unit
NotIn x (y ∷ ys) = (x ≢ y) × NotIn x ys

abbrev pub AllDiffer : List ℕ → Type 0
AllDiffer [] = Unit
AllDiffer (x ∷ xs) = NotIn x xs × AllDiffer xs

-- `n` ids from `c` on.
abbrev pub ids_from : (n c : ℕ) → List ℕ
ids_from zero c = []
ids_from (suc n) c = c ∷ ids_from n ((c + 1) % 2 ^ 32)

differs : (x k : ℕ) → x < 2 ^ 32 → 0 < k → k < 2 ^ 32 → x ≢ (x + k) % 2 ^ 32
differs x k p q r = ground arith

one_on : (x k : ℕ) → ((x + k) % 2 ^ 32 + 1) % 2 ^ 32 ≡ (x + (k + 1)) % 2 ^ 32
one_on x k = omega arith

wrapped : (c : ℕ) → (c + 1) % 2 ^ 32 < 2 ^ 32
wrapped c = omega arith

ids_from-NotIn :
    (n x k : ℕ) → x < 2 ^ 32 → 0 < k → k + n ≤ 2 ^ 32 → NotIn x (ids_from n ((x + k) % 2 ^ 32))
ids_from-NotIn zero x k p q r = tt
ids_from-NotIn (suc n) x k p q r = (
  differs x k p q (omega (arith, r)),
  subst (λ c. NotIn x (ids_from n c)) (sym (one_on x k))
      (ids_from-NotIn n x (k + 1) p (omega arith) (omega (arith, r))),
)

ids_from-AllDiffer : (n c : ℕ) → c < 2 ^ 32 → n ≤ 2 ^ 32 → AllDiffer (ids_from n c)
ids_from-AllDiffer zero c p q = tt
ids_from-AllDiffer (suc n) c p q = (
  ids_from-NotIn n c 1 p (omega arith) (omega (arith, q)),
  ids_from-AllDiffer n ((c + 1) % 2 ^ 32) (wrapped c) (omega (arith, q)),
)

module _ {S F : Type 0} (socket : Socket S) where
  -- Requests one after the other, and their ids.
  unfoldable pub send_all : List (ℕ → List ℕ) → Method (Exception F) (Tcp S) (List ℕ)
  send_all [] = pure []
  send_all (m ∷ ms) = do id ← tcp_send_request socket m; ids ← send_all ms; pure (id ∷ ids)

  tcp_send_request-ok :
      (m : ℕ → List ℕ) (s t : Tcp S) {id : ℕ}
      → ◌≡◌ {A = Result (Exception F) ℕ × Tcp S} (tcp_send_request socket m s) (ok id, t)
      → (id ≡ s.command_id) × (t.command_id ≡ (s.command_id + 1) % 2 ^ 32)
  unfolding tcp_send_request
  tcp_send_request-ok m s t {id} e =
      let u : Tcp S = record s { command_id = (s.command_id + 1) % 2 ^ 32 } in
      let sending =
        on_socket {F = F} "libfranka: TCP send bytes: " (socket.send_bytes (m s.command_id)) u in
      let (_, _, k) = after-eq-ok sending _ e in
      (sym (ok_injective (ap (λ p. p.0) k)), ap (λ p. p.1.command_id) (sym k))

  send_all-ids_from :
      (ms : List (ℕ → List ℕ)) (s t : Tcp S) {ids : List ℕ}
      → send_all ms s ≡ (ok ids, t)
      → ids ≡ ids_from (length ms) s.command_id
  unfolding send_all
  send_all-ids_from [] s t e = sym (ok_injective (ap (λ p. p.0) e))
  send_all-ids_from (m ∷ ms) s t {ids} e =
      let (id, e₁, k₁) = after-eq-ok (tcp_send_request socket m s) _ e in
      let u = (tcp_send_request {F = F} socket m s).1 in
      let (rest, e₂, k₂) = after-eq-ok (send_all ms u) _ k₁ in
      let (here, next) = tcp_send_request-ok m s u (eq_of_fst (tcp_send_request socket m s) e₁) in
      let others = send_all-ids_from ms u (send_all ms u).1 (eq_of_fst (send_all ms u) e₂) in
      sym (ok_injective (ap (λ p. p.0) k₂))
      ∙ ap (λ x. x ∷ rest) here
      ∙ ap (λ l. s.command_id ∷ l) (others ∙ ap (ids_from (length ms)) next)

  -- Requests one after the other, not more than 2 ^ 32 of them, whose sends all return. Their
  -- command ids count from that of the connection on modulo 2 ^ 32, and no two of them are the same.
  pub tcp_send_request-AllDiffer :
      (ms : List (ℕ → List ℕ)) (s t : Tcp S) (ids : List ℕ)
      → s.command_id < 2 ^ 32
      → length ms ≤ 2 ^ 32
      → send_all ms s ≡ (ok ids, t)
      → (ids ≡ ids_from (length ms) s.command_id) × AllDiffer ids
  tcp_send_request-AllDiffer ms s t ids small few e =
      let counted = send_all-ids_from ms s t e in
      (
        counted,
        subst AllDiffer (sym counted) (ids_from-AllDiffer (length ms) s.command_id small few),
      )
