-- ===== src/Robot/Receive.antt =====
-- What `receiveRobotState` returns.
use native.Mathlib.Nat.{le_refl, le_trans}
use mathlib.Core.Path.{subst}
use libfranka.Prelude.{
  ℕ, zero, suc, ◌≤◌, ◌<◌, ◌≡◌, ◌≢◌, ◌∙◌, inl, inr, refl, ap, Option, none, some, Double, Result, ok,
  Method, pure, modify, ◌>>=◌, ◌>>◌, after-eq-ok, eq_of_fst, Bool-cases, arith, ◌==◌,
}
use libfranka.Interface.{WireState}
use libfranka.Exceptions.{Exception}
use libfranka.Robot.State.{Network, Impl, on_network, update_state}
use libfranka.Robot.Channel.{accept, on_datagram, none_accepted, drain, await, receive_robot_state}

module _ {N F : Type 0} where
  -- `t` is `s` with another state of the connection.
  abbrev pub SameButNetwork : Impl N F → Impl N F → Type 0
  SameButNetwork s t = t ≡ record s { network = t.network }

  pub same_of_eq : (s t : Impl N F) → s ≡ t → SameButNetwork s t
  same_of_eq s t p = rw (← p)

  pub same_trans : (s t u : Impl N F) → SameButNetwork s t → SameButNetwork t u → SameButNetwork s u
  same_trans s t u p q = q ∙ ap (λ (x : Impl N F). record x { network = u.network }) p

module _ {F : Type 0} where
  le-accept : (latest r : WireState F) → latest.message_id ≤ (accept latest r).message_id
  le-accept latest r = ground arith

  -- What a loop returned, from the equation of its results.
  pub returned_state :
      {S A : Type 0} {a b : A} {s t : S}
      → ◌≡◌ {A = Result (Exception F) A × S} (ok a, s) (ok b, t)
      → s ≡ t
  returned_state h = ap (λ p. p.1) h

  pub returned_value :
      {S A : Type 0} {a b : A} {s t : S}
      → ◌≡◌ {A = Result (Exception F) A × S} (ok a, s) (ok b, t)
      → a ≡ b
  returned_value h = cc

module _ (F : Type 0) ⦃d : Double F⦄ where
  message_id-none_accepted : (id : ℕ) → (none_accepted {F = F} id).message_id ≡ id
  unfolding none_accepted
  message_id-none_accepted id = refl

module _ {N F : Type 0} where
  settled :
      (s v t : Impl N F) (b w : WireState F)
      → b ≡ w
      → update_state b v ≡ t
      → SameButNetwork s v
      → t ≡ update_state w (record s { network = t.network })
  unfolding update_state
  settled s v t b w p q r =
      let q' : update_state w v ≡ t = subst (λ x. update_state x v ≡ t) p q in
      subst (λ (x : Impl N F). x ≡ update_state w (record s { network = x.network })) q'
        (ap (update_state w) r)

module _ {N F : Type 0} ⦃d : Double F⦄ ⦃n : Network N F⦄ where
  -- A round of the first loop, given what the rounds after it do.
  on_datagram-ok :
      (latest : WireState F) (again : WireState F → Method (Exception F) (Impl N F) (WireState F))
      (u t : Impl N F) {w : WireState F} (received : Option (WireState F))
      → ((r : WireState F)
          → again r u ≡ (ok w, t)
          → (r.message_id ≤ w.message_id) × SameButNetwork u t)
      → on_datagram (pure latest) (λ r. again (accept latest r)) received u ≡ (ok w, t)
      → (latest.message_id ≤ w.message_id) × SameButNetwork u t
  on_datagram-ok latest again u t none ih k =
      (rw (returned_value k) (le_refl _), same_of_eq u t (returned_state k))
  on_datagram-ok latest again u t (some r) ih k =
      let (le, same) = ih (accept latest r) k in (le_trans (le-accept latest r) le, same)

  drain-ok :
      (fuel : ℕ) (latest : WireState F) (s t : Impl N F) {w : WireState F}
      → drain fuel latest s ≡ (ok w, t)
      → (latest.message_id ≤ w.message_id) × SameButNetwork s t
  unfolding drain
  drain-ok zero latest s t h = cc
  drain-ok (suc fuel) latest s t h =
      let (received, e, k) = after-eq-ok (on_network n.udp_receive s) _ h in
      let u = (on_network n.udp_receive s).1 in
      let (le, same) =
        on_datagram-ok latest (drain fuel) u t received (λ r. drain-ok fuel r u t) k in
      (le, same_trans s u t refl same)

  await-ok :
      (fuel : ℕ) (latest : WireState F) (s t : Impl N F) {w : WireState F}
      → s.message_id ≤ latest.message_id
      → await fuel latest s ≡ (ok w, t)
      → (s.message_id < w.message_id) × SameButNetwork s t
  unfolding await
  await-ok zero latest s t le h = cc
  await-ok (suc fuel) latest s t le h = elim (Bool-cases (latest.message_id == s.message_id)) [
    | inl old ↦
        let (r, e, k) = after-eq-ok (on_network n.udp_blocking_receive s) _ (rw old at h) in
        let u = (on_network n.udp_blocking_receive s).1 in
        let (newer, same) =
          await-ok fuel (accept latest r) u t
            (le_trans {k = (accept latest r).message_id} le (le-accept latest r)) k in
        (newer, same_trans s u t refl same)
    | inr new ↦
        let k = rw new at h in
        let differs : s.message_id ≢ latest.message_id = ground arith in
        (rw (← returned_value k) (omega arith), same_of_eq s t (returned_state k))
  ]

  -- `receiveRobotState` behind its first loop.
  receive_rest :
      (fuel : ℕ) (s u t : Impl N F) (a w : WireState F)
      → ((none_accepted {F = F} s.message_id).message_id ≤ a.message_id) × SameButNetwork s u
      → (await fuel a >>= λ latest. modify (update_state latest) >> pure latest) u ≡ (ok w, t)
      → (s.message_id < w.message_id) × (t ≡ update_state w (record s { network = t.network }))
  unfolding update_state
  receive_rest fuel s u t a w (older, same) k =
      let kept : u.message_id ≡ s.message_id = ap (λ (x : Impl N F). x.message_id) same in
      let older' = rw (message_id-none_accepted F s.message_id) at older in
      let (b, e, k') = after-eq-ok (await fuel a u) _ k in
      let v = (await fuel a u).1 in
      let (newer, same') = await-ok fuel a u v (rw kept older') (eq_of_fst (await fuel a u) e) in
      let back : b ≡ w = returned_value k' in
      (
        subst (λ (x : WireState F). s.message_id < x.message_id) back (rw (← kept) newer),
        settled s v t b w back (returned_state k') (same_trans s u v same same'),
      )

  -- If `receiveRobotState` returns, the state that it returns has a greater message id than the last
  -- accepted one, and the object changed only in what `updateState` copies from that state and in the
  -- state of the connection.
  pub receive_robot_state-newer :
      (fuel : ℕ) (s t : Impl N F) (w : WireState F)
      → receive_robot_state fuel s ≡ (ok w, t)
      → (s.message_id < w.message_id) × (t ≡ update_state w (record s { network = t.network }))
  unfolding receive_robot_state
  receive_robot_state-newer fuel s t w h =
      let first = none_accepted s.message_id in
      let (a, e, k) = after-eq-ok (drain fuel first s) _ h in
      receive_rest fuel s (drain fuel first s).1 t a w
        (drain-ok fuel first s (drain fuel first s).1 (eq_of_fst (drain fuel first s) e)) k
