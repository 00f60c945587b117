-- ===== src/Robot/Construct.antt =====
-- The constructor of `Robot::Impl`, with the handshake `connect` of src/network.h.
use libfranka.Prelude.{
  ℕ, zero, suc, ◌≡◌, ◌∙◌, ap, refl, Option, none, some, Double, Result, ok, raise, Method, pure,
  throw, ◌>>=◌, after-eq-ok, eq_of_fst,
}
use libfranka.Interface.{
  Command, MotionGeneratorMode, ControllerMode, RobotMode, WireState, Response, k_version,
}
use libfranka.Interface.Status
use libfranka.Exceptions.{Exception, incompatible_version, protocol, invalid_argument}
use libfranka.ControlTypes.{RealtimeConfig}
use libfranka.RobotState.{empty_robot_state}
use libfranka.Logger.{new}
use libfranka.Robot.State.{Network, Impl, update_state}

success_byte : (b : ℕ) → Status.connect b ≡ Status.Connect.success → b ≡ 0
success_byte zero h = refl
success_byte (suc zero) h = absurd (cc)
success_byte (suc (suc b)) h = absurd (cc)

returned :
    {A S E : Type 0} {a b : A} {x y : S} → ◌≡◌ {A = Result E A × S} (ok a, x) (ok b, y) → b ≡ a
returned k = cc

module _ {N F : Type 0} where
  -- The switch over the status; the version of the server on success.
  unfoldable pub handle_connect : Response → Status.Connect → Method (Exception F) N ℕ
  handle_connect r Status.Connect.success = pure r.version
  handle_connect r Status.Connect.incompatible_library_version =
      throw (incompatible_version r.version k_version)
  handle_connect r _ = throw (protocol "libfranka: Protocol error during connection attempt")

module _ {N F : Type 0} ⦃n : Network N F⦄ where
  -- `connect<Connect, kVersion>(network, &ri_version)`
  unfoldable pub connect_robot : Method (Exception F) N ℕ
  connect_robot c =
      (do
        command_id ← n.tcp_send_connect k_version (n.udp_port c)
        connect_response ← n.tcp_blocking_receive_response Command.connect command_id
        handle_connect connect_response (Status.connect connect_response.status))
        c

  -- The object before the first state is received. `current_move_controller_mode_` has no initial value
  -- in the source: it is the argument `indeterminate`, and so are the members that `updateState` sets.
  abbrev pub fresh :
      ⦃d : Double F⦄ → (indeterminate : ControllerMode) → ℕ → RealtimeConfig → ℕ → N → Impl N F
  fresh indeterminate log_size config version c = record {
    network = c;
    logger = new log_size;
    realtime_config = config;
    ri_version = version;
    robot_mode = RobotMode.other;
    motion_generator_mode = MotionGeneratorMode.idle;
    current_move_motion_generator_mode = MotionGeneratorMode.idle;
    controller_mode = ControllerMode.other;
    current_move_controller_mode = indeterminate;
    message_id = 0;
    current_state = empty_robot_state;
  }

  -- `Robot::Impl::Impl`; a null pointer is `none`.
  unfoldable pub construct :
      ⦃d : Double F⦄
      → ControllerMode
      → ℕ
      → RealtimeConfig
      → Option N
      → Result (Exception F) (Impl N F)
  construct indeterminate log_size config none =
      raise (invalid_argument "libfranka robot: Invalid argument")
  construct indeterminate log_size config (some c) =
      ((do
        version ← connect_robot
        first ← n.udp_blocking_receive
        (λ u. (ok (update_state first (fresh indeterminate log_size config version u)), u)))
        c).0

  handle_connect-ok :
      (r : Response) (status : Status.Connect) (s t : N) {version : ℕ}
      → handle_connect {F = F} r status s ≡ (ok version, t)
      → (status ≡ Status.Connect.success) × (version ≡ r.version) × (s ≡ t)
  unfolding handle_connect
  handle_connect-ok r Status.Connect.success s t h = (refl, cc, ap (λ p. p.1) h)
  handle_connect-ok r Status.Connect.incompatible_library_version s t h = absurd (cc)
  handle_connect-ok r (Status.Connect.unlisted b) s t h = absurd (cc)

  -- The constructor in its two steps.
  made_from :
      ⦃d : Double F⦄
      → (indeterminate : ControllerMode) (log_size : ℕ) (config : RealtimeConfig) (c : N)
        {t : Impl N F}
      → construct indeterminate log_size config (some c) ≡ ok t
      → (version : ℕ) × (v : N) × (connect_robot c ≡ (ok version, v))
        × (first : WireState F) × (n.udp_blocking_receive v
            ≡ (ok first, (n.udp_blocking_receive v).1))
        × (t
            ≡ update_state first
                (fresh indeterminate log_size config version (n.udp_blocking_receive v).1))
  unfolding construct
  made_from indeterminate log_size config c h =
      let (version, e₁, k₁) = after-eq-ok (connect_robot c) _ (eq_of_fst _ h) in
      let v = (connect_robot c).1 in
      let (first, e₂, k₂) = after-eq-ok (n.udp_blocking_receive v) _ k₁ in
      (
        version,
        v,
        eq_of_fst (connect_robot c) e₁,
        first,
        eq_of_fst (n.udp_blocking_receive v) e₂,
        returned k₂,
      )

  -- If the constructor returns an object, then the connection was not null; a `Connect` with the
  -- library's version and the UDP port of the connection was sent, and `r` is the response that the
  -- connection gave under the id of this request; the status of `r` is the success byte; and the object
  -- is the fresh one with the version in `r`, on which `updateState` copied the first state that arrived
  -- after the response.
  pub construct-ok :
      ⦃d : Double F⦄
      → (indeterminate : ControllerMode) (log_size : ℕ) (config : RealtimeConfig)
        (network : Option N) {t : Impl N F}
      → construct indeterminate log_size config network ≡ ok t
      → (c x v u : N) × (id : ℕ) × (r : Response) × (first : WireState F) × (network ≡ some c)
        × (n.tcp_send_connect k_version (n.udp_port c) c ≡ (ok id, x))
        × (n.tcp_blocking_receive_response Command.connect id x ≡ (ok r, v))
        × (r.status ≡ 0)
        × (n.udp_blocking_receive v ≡ (ok first, u))
        × (t ≡ update_state first (fresh indeterminate log_size config r.version u))
  unfolding connect_robot construct handle_connect
  construct-ok indeterminate log_size config none h = absurd (cc)
  construct-ok indeterminate log_size config (some c) {t = t} h =
      let (version, v, e₁, first, e₂, made) = made_from indeterminate log_size config c h in
      let sending = n.tcp_send_connect k_version (n.udp_port c) in
      let (id, f₁, g₁) = after-eq-ok (sending c) _ e₁ in
      let x = (sending c).1 in
      let (r, f₂, g₂) = after-eq-ok (n.tcp_blocking_receive_response Command.connect id x) _ g₁ in
      let y = (n.tcp_blocking_receive_response Command.connect id x).1 in
      let (success, same, kept) = handle_connect-ok r (Status.connect r.status) y v g₂ in
      (
        c,
        x,
        v,
        (n.udp_blocking_receive v).1,
        id,
        r,
        first,
        refl,
        eq_of_fst (sending c) f₁,
        eq_of_fst (n.tcp_blocking_receive_response Command.connect id x) f₂
            ∙ ap (λ z. (ok r, z)) kept,
        success_byte r.status success,
        e₂,
        rw (← same) made,
      )
