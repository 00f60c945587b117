-- ===== src/Robot/Stream.antt =====
-- A connection on which the robot sends a state in each cycle and answers every request.
use libfranka.Prelude.{
  ℕ, zero, suc, ◌<◌, ◌≡◌, ◌∙◌, ◌⊎◌, refl, ap, Bool, true, false, not, ◌&&◌, ◌||◌, Option, none,
  some, List, [], ◌∷◌, Double, ok, Method, after-run, arith, ◌==◌,
}
use libfranka.Interface.{
  MotionGeneratorMode, same_motion, same_controller, external_controller, WireCommand, WireState,
  Command, Response, stop_move,
}
use libfranka.Exceptions.{Exception}
use libfranka.Robot.State.{Network, Impl, on_network, update_state}
use libfranka.Robot.Channel.{accept, none_accepted, drain, await, receive_robot_state}
use libfranka.Robot.Motions.{is_running}

module _ {F : Type 0} where
  -- Neither a motion generator nor the external controller runs in this state.
  abbrev pub is_still : WireState F → Bool
  is_still r =
      same_motion r.motion_generator_mode MotionGeneratorMode.idle
      && not (same_controller r.controller_mode external_controller)

  -- The message ids rise, from above `m` on.
  abbrev pub Rising : ℕ → List (WireState F) → Type 0
  Rising m [] = Unit
  Rising m (r ∷ q) = (m < r.message_id) × Rising r.message_id q

  -- One of the first `k` states is still.
  abbrev pub StopsIn : ℕ → List (WireState F) → Type 0
  StopsIn zero q = ⊥
  StopsIn (suc k) [] = ⊥
  StopsIn (suc k) (r ∷ q) = (is_still r ≡ true) ⊎ StopsIn k q

module _ {N F : Type 0} where
  pub is_running-update_state :
      (r : WireState F) (s : Impl N F) → is_running (update_state r s) ≡ not (is_still r)
  unfolding update_state
  is_running-update_state r s =
      go (same_motion r.motion_generator_mode MotionGeneratorMode.idle)
        (same_controller r.controller_mode external_controller)
    where
      go : (a b : Bool) → (not a || b) ≡ not (a && not b)
      go true true = refl
      go true false = refl
      go false true = refl
      go false false = refl

  pub on_network-run :
      {A : Type 0} (m : Method (Exception F) N A) (s : Impl N F) {a : A} {c : N}
      → m s.network ≡ (ok a, c)
      → on_network m s ≡ (ok a, record s { network = c })
  on_network-run m s e = ap (λ p. (p.0, record s { network = p.1 })) e

accept-newer :
    {F : Type 0} (latest r : WireState F) → latest.message_id < r.message_id → accept latest r ≡ r
accept-newer latest r h = ground arith

module _ (F : Type 0) ⦃d : Double F⦄ where
  message_id-none_accepted : (id : ℕ) → (none_accepted {F = F} id).message_id ≡ id
  unfolding none_accepted
  message_id-none_accepted id = refl

module _ {N F : Type 0} ⦃d : Double F⦄ ⦃n : Network N F⦄ where
  await-newer :
      (fuel : ℕ) (latest : WireState F) (s : Impl N F)
      → s.message_id < latest.message_id
      → await (suc fuel) latest s ≡ (ok latest, s)
  unfolding await
  await-newer fuel latest s new =
      let differs : (latest.message_id == s.message_id) ≡ false = ground arith in rw differs

  -- The connection while the robot sends a state in each cycle. `Phase none` holds of connections on which
  -- no response is waited for, and `Phase (some (k, id))` of those on which the response to the command
  -- `k` with this id is to come. In every phase no state waits on the socket and the next one arrives; a
  -- command that is sent leaves the states to come. A request that is sent leads to the phase in which its
  -- response is to come, and this response is a success.
  pub record IsStream (coming : N → List (WireState F)) (Phase : Option (Command × ℕ) → N → Type 0)
      : Type 0 where
    pub quiet : (p : Option (Command × ℕ)) (c : N) → Phase p c → n.udp_receive c ≡ (ok none, c)
    pub next :
        (p : Option (Command × ℕ)) (c : N) (r : WireState F) (q : List (WireState F))
        → Phase p c
        → coming c ≡ r ∷ q
        → (c' : N) × (n.udp_blocking_receive c ≡ (ok r, c')) × (coming c' ≡ q) × Phase p c'
    pub opened :
        (p : Option (Command × ℕ)) (c : N)
        → Phase p c
        → n.tcp_throw_if_connection_closed c ≡ (ok tt, c)
    pub transmits :
        (p : Option (Command × ℕ)) (w : WireCommand F) (c : N)
        → Phase p c
        → (c' : N) × (n.udp_send w c ≡ (ok tt, c')) × (coming c' ≡ coming c) × Phase p c'
    pub sends :
        (c : N)
        → Phase none c
        → (id : ℕ) × (c' : N) × (n.tcp_send_request stop_move c ≡ (ok id, c'))
          × (coming c' ≡ coming c)
          × Phase (some (Command.stop_move, id)) c'
    pub answers :
        (k : Command) (id : ℕ) (c : N)
        → Phase (some (k, id)) c
        → (r : Response) × (c' : N) × (n.tcp_blocking_receive_response k id c ≡ (ok r, c'))
          × (r.status ≡ 0)
          × (coming c' ≡ coming c)
          × Phase none c'
    pub polls :
        (k : Command) (id : ℕ) (c : N)
        → Phase none c
        → (b : Bool) × (c' : N) × (n.tcp_receive_response k id (λ _. ok tt) c ≡ (ok b, c'))

  module _ (coming : N → List (WireState F)) (Phase : Option (Command × ℕ) → N → Type 0)
      (stream : IsStream coming Phase) (p : Option (Command × ℕ)) where
    drain-quiet :
        (fuel : ℕ) (latest : WireState F) (s : Impl N F)
        → Phase p s.network
        → drain (suc fuel) latest s ≡ (ok latest, s)
    unfolding drain
    drain-quiet fuel latest s phase =
        after-run (on_network n.udp_receive s) _
          (on_network-run n.udp_receive s (stream.quiet p s.network phase))

    await-next :
        (fuel : ℕ) (latest : WireState F) (s : Impl N F) (r : WireState F) {c : N}
        → latest.message_id ≡ s.message_id
        → n.udp_blocking_receive s.network ≡ (ok r, c)
        → s.message_id < r.message_id
        → await (suc (suc fuel)) latest s ≡ (ok r, record s { network = c })
    unfolding await
    await-next fuel latest s r {c = c} old got new =
        let same : (latest.message_id == s.message_id) ≡ true = ground arith in
        let taken : accept latest r ≡ r = accept-newer latest r (omega arith) in
        rw same (
          after-run (on_network n.udp_blocking_receive s) _
            (on_network-run n.udp_blocking_receive s got)
          ∙ ap (λ x. await (suc fuel) x (record s { network = c })) taken
          ∙ await-newer fuel r (record s { network = c }) new)

    pub receive_robot_state-next :
        (fuel : ℕ) (s : Impl N F) (r : WireState F) (q : List (WireState F))
        → coming s.network ≡ r ∷ q
        → s.message_id < r.message_id
        → Phase p s.network
        → (c : N) × (receive_robot_state (suc (suc fuel)) s
            ≡ (ok r, update_state r (record s { network = c })))
          × (coming c ≡ q)
          × Phase p c
    unfolding receive_robot_state
    receive_robot_state-next fuel s r q e new phase =
        let (c, got, left, kept) = stream.next p s.network r q phase e in
        let start = none_accepted s.message_id in
        (
          c,
          after-run (drain (suc (suc fuel)) start s) _ (drain-quiet (suc fuel) start s phase)
              ∙ after-run (await (suc (suc fuel)) start s) _
                  (await-next fuel start s r (message_id-none_accepted F s.message_id) got new),
          left,
          kept,
        )
