-- ===== src/Tests/Loop.antt =====
-- Runs of a control loop over a robot that only counts.
use mathlib.Core.Path.{subst}
use libfranka.Prelude.{
  ℕ, zero, suc, ◌≡◌, ◌≢◌, refl, Bool, true, false, none, some, filled, Result, ok, raise, running,
  Method, arith,
}
use libfranka.Geometry.{Geometry}
use libfranka.Interface.{MoveGenerator, empty_motion}
use libfranka.ControlTypes.{JointPositions, Torques, RealtimeConfig}
use libfranka.ControlTools.{check_finite}
use libfranka.Exceptions.{Exception, network}
use libfranka.Duration.{Duration}
use libfranka.RobotState.{RobotState, empty_robot_state}
use libfranka.Robot.{create_motion_command, create_controller_command}
use libfranka.ControlLoop.{
  RobotControl, ControlLoop, Session, as_motion, convert_motion, convert_torques, spin_motion,
  next_state, motion_cycles, cycles_of, run_body, run,
}
use libfranka.ControlLoop.Checked.{IsSafe, convert_motion-IsSafe}
use libfranka.ControlLoop.Direct.{convert_motion-direct, convert_torques-direct}
use libfranka.ControlLoop.Cancels.{Promises, run-Idle, run-cancelled}
use libfranka.ControlLoop.Yields.{Winds, Responds}
use libfranka.ControlLoop.Ends.{run-Total}
use libfranka.Tests.Script.{count_double, count_matrices}

instance abbrev pub count_geometry : Geometry ℕ
count_geometry = record {
  vec_add = λ a b. a;
  vec_sub = λ a b. a;
  vec_scale = λ a x. a;
  vec_div = λ a x. a;
  norm = λ a. 1;
  squared_norm = λ a. 1;
  dot = λ a b. 1;
  translation = λ p. filled 1 3;
  rotation = λ p. filled 1 9;
  identity_pose = filled 1 16;
  place = λ p r t. p;
  identity = filled 1 9;
  transpose = λ r. r;
  angle = λ r. 1;
  axis = λ r. filled 1 3;
  quaternion = λ r. filled 1 4;
  slerp = λ x p q. p;
  normalized = λ q. q;
  to_rotation_matrix = λ q. filled 1 9;
}

-- The number of states that were sent since the start of a motion.
instance abbrev counting : RobotControl ℕ ℕ
counting = record {
  start_motion = λ c g path goal s. (ok 7, 1);
  finish_motion = λ id m c s. (ok tt, 0);
  cancel_motion = λ id s. (ok tt, 0);
  update = λ m c s. (ok empty_robot_state, suc s);
  throw_on_motion_error = λ state id s. (ok tt, s);
  realtime_config = λ s. RealtimeConfig.ignore;
}

abbrev Stopped : ℕ → Type 0
Stopped s = s ≡ 0

keeps_promises : Promises counting Stopped
keeps_promises = record { finished = λ id m c s t h. stopped h; cancelled = λ id s t h. stopped h }
  where
    stopped : {t : ℕ} → ◌≡◌ {A = Result (Exception ℕ) (Unit {0}) × ℕ} (ok tt, 0) (ok tt, t) → t ≡ 0
    stopped h = cc

abbrev hold : Bool → JointPositions ℕ
hold last = record { q = filled 1 7; motion_finished = last }

-- A motion of as many states as the user's counter says.
abbrev count_down : RobotState ℕ → Duration → Method (Exception ℕ) ℕ (JointPositions ℕ)
count_down state step zero = (ok (hold true), zero)
count_down state step (suc n) = (ok (hold false), n)

abbrev fail : RobotState ℕ → Duration → Method (Exception ℕ) ℕ (JointPositions ℕ)
fail state step u = (raise (network "callback"), u)

abbrev loop_of :
    (RobotState ℕ → Duration → Method (Exception ℕ) ℕ (JointPositions ℕ))
    → ControlLoop MoveGenerator.joint_position ℕ ℕ
loop_of motion = record {
  motion_callback = some motion;
  control_callback = none;
  limit_rate = false;
  cutoff_frequency = 1000;
  motion_id = 7;
}

abbrev two_to_go : Session ℕ ℕ
two_to_go = record { robot = 1; user = 2 }

run-Idle_example : Stopped (run 5 (loop_of count_down) two_to_go).1.robot
unfolding run run_body cycles_of motion_cycles spin_motion next_state convert_motion check_finite
run-Idle_example =
    run-Idle Stopped keeps_promises 5 (loop_of count_down) two_to_go
      (run 5 (loop_of count_down) two_to_go).1 refl

run-cancelled_example :
    (u : Session ℕ ℕ) × (c : Result (Exception ℕ) (Unit {0})) × (run_body 5 (loop_of fail) two_to_go
      ≡ (raise (network "callback"), u))
    × (counting.cancel_motion 7 u.robot ≡ (c, (run 5 (loop_of fail) two_to_go).1.robot))
    × (c ≢ running)
    × (c ≡ ok tt → Stopped (run 5 (loop_of fail) two_to_go).1.robot)
unfolding run run_body cycles_of motion_cycles spin_motion next_state
run-cancelled_example =
    run-cancelled Stopped keeps_promises 5 (loop_of fail) two_to_go
      (run 5 (loop_of fail) two_to_go).1 (network "callback") refl

answers : Responds counting
answers = record {
  updates = λ m c s h. absurd (cc);
  checks = λ state id s h. absurd (cc);
  finishes = λ id m c s h. absurd (cc);
  cancels = λ id s h. absurd (cc);
}

count_down-Winds : Winds (λ u. u) MoveGenerator.joint_position count_down
count_down-Winds state step zero = λ h. absurd (cc)
count_down-Winds state step (suc n) = λ h. omega arith

run-Total_example : (run 3 (loop_of count_down) two_to_go).0 ≢ running
run-Total_example =
    run-Total MoveGenerator.joint_position (λ u. u) answers 3 (loop_of count_down) two_to_go
      (λ f h. set_motion h) (λ f h. absurd (cc)) (omega arith)
  where
    set_motion :
        {f : RobotState ℕ → Duration → Method (Exception ℕ) ℕ (JointPositions ℕ)}
        → some count_down ≡ some f
        → Winds (λ u. u) MoveGenerator.joint_position f
    set_motion h = subst (Winds (λ u. u) MoveGenerator.joint_position) (value h) count_down-Winds
      where
        value : {A : Type 0} {a b : A} → some a ≡ some b → a ≡ b
        value q = cc

abbrev some_torques : Torques ℕ
some_torques = record { tau_j = filled 4 7; motion_finished = false }

convert_motion-IsSafe_example :
    IsSafe {F = ℕ} MoveGenerator.joint_position (record empty_motion { q_c = filled 1 7 })
unfolding convert_motion check_finite
convert_motion-IsSafe_example =
    convert_motion-IsSafe MoveGenerator.joint_position false 1000 (hold false) empty_robot_state
      empty_motion (record empty_motion { q_c = filled 1 7 }) refl

convert_torques-direct_example :
    convert_torques false 1000 some_torques empty_robot_state
    ≡ create_controller_command some_torques
convert_torques-direct_example = convert_torques-direct 1000 some_torques empty_robot_state refl

convert_motion-direct_example :
    convert_motion MoveGenerator.joint_position false 1000
      (hold false)
      empty_robot_state
      empty_motion
    ≡ create_motion_command (as_motion MoveGenerator.joint_position (hold false))
convert_motion-direct_example =
    convert_motion-direct MoveGenerator.joint_position 1000 (hold false) empty_robot_state refl
