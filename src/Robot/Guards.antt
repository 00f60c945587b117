-- ===== src/Robot/Guards.antt =====
-- What `sendRobotCommand` sends and what it refuses.
use libfranka.Prelude.{
  String, ◌≡◌, ◌⊎◌, refl, Bool, true, false, Option, none, some, Double, raise, pure, arith, ◌>>◌,
}
use libfranka.Interface.{
  MotionGeneratorMode, same_motion, same_controller, external_controller, MotionGeneratorCommand,
  ControllerCommand,
}
use libfranka.Robot.State.{Network, Impl, on_network}
use libfranka.Robot.Channel.{
  is_some, plain, filled_command, refusal, send_unless, send_robot_command,
}

-- The motion that was started takes a command with these parts: a motion command wants a motion
-- generator, torques want the external controller, and where both run the command has both parts.
abbrev pub Takes : (idle external has_motion has_control : Bool) → Type 0
Takes idle external has_motion has_control =
    (has_motion ≡ true → idle ≡ false)
    × (has_control ≡ true → external ≡ true)
    × (idle ≡ false → external ≡ true → (has_motion ≡ true) × (has_control ≡ true))

refusal-none :
    (m c idle external : Bool) → Takes idle external m c → refusal m c idle external ≡ none
unfolding refusal
refusal-none m c idle external t = ground arith

refusal-some :
    (m c idle external : Bool)
    → ¬ (Takes idle external m c)
    → (what : String) × (refusal m c idle external ≡ some what)
unfolding refusal
refusal-some true c true external bad = (_, refl)
refusal-some true true false false bad = (_, refl)
refusal-some false true idle false bad = (_, refl)
refusal-some true false false true bad = (_, refl)
refusal-some false c false true bad = (_, refl)
refusal-some _ _ _ _ bad = absurd (bad (ground arith))

module _ {N F : Type 0} where
  abbrev pub IsAllowed :
      Option (MotionGeneratorCommand F) → Option (ControllerCommand F) → Impl N F → Type 0
  IsAllowed m c s =
      Takes (same_motion s.current_move_motion_generator_mode MotionGeneratorMode.idle)
        (same_controller s.current_move_controller_mode external_controller) (is_some m) (is_some c)

module _ {N F : Type 0} ⦃d : Double F⦄ ⦃n : Network N F⦄ where
  -- A command with some part is sent exactly when the started motion takes its parts: if it does, the
  -- one effect is that the parts go out over UDP under the id of the last accepted state; if not, a
  -- `ControlException` is thrown and the object and the connection are as before.
  pub send_robot_command-guarded :
      (m : Option (MotionGeneratorCommand F)) (c : Option (ControllerCommand F)) (s : Impl N F)
      → (is_some m ≡ true) ⊎ (is_some c ≡ true)
      → (IsAllowed m c s
          → send_robot_command m c s
            ≡ (on_network (n.udp_send (filled_command s.message_id m c))
                  >> pure (filled_command s.message_id m c))
                s)
        × (¬ (IsAllowed m c s)
            → (what : String) × (send_robot_command m c s ≡ (raise (plain what), s)))
  unfolding send_robot_command send_unless
  send_robot_command-guarded none none s g = absurd (ground arith)
  send_robot_command-guarded m c s g = (
    (λ a. rw (refusal-none _ _ _ _ a)),
    (λ a. let (what, e) = refusal-some _ _ _ _ a in (what, rw e)),
  )
