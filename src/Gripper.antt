-- ===== src/Gripper.antt =====
-- src/gripper.cpp, include/franka/gripper_state.h and
-- common/include/research_interface/gripper/types.h.
use libfranka.Prelude.{ℕ, Bool, Result, ok, Method, ◌>>=◌}
use libfranka.Exceptions.{Exception}
use libfranka.Duration.{Duration, of_msec}
use libfranka.Device.{Device, execute, greet, read_with}

-- `Request` of each command.
pub data GripperRequest (F : Type 0) : Type 0 where
  connect : (version udp_port : ℕ) → GripperRequest F
  homing : GripperRequest F
  grasp : (width epsilon_inner epsilon_outer speed force : F) → GripperRequest F
  move : (width speed : F) → GripperRequest F
  stop : GripperRequest F

-- `research_interface::gripper::GripperState`
pub record WireGripperState (F : Type 0) : Type 0 where
  pub message_id : ℕ  -- uint32_t
  pub width : F
  pub max_width : F
  pub is_grasped : Bool
  pub temperature : ℕ  -- uint16_t

pub record GripperState (F : Type 0) : Type 0 where
  pub width : F
  pub max_width : F
  pub is_grasped : Bool
  pub temperature : ℕ  -- uint16_t
  pub time : Duration

-- `kVersion`
abbrev pub k_gripper_version : ℕ
k_gripper_version = 3

abbrev pub convert_gripper_state : {F : Type 0} → WireGripperState F → GripperState F
convert_gripper_state s = record {
  width = s.width;
  max_width = s.max_width;
  is_grasped = s.is_grasped;
  temperature = s.temperature;
  time = of_msec s.message_id;
}

-- The connection and `ri_version_`.
pub record Gripper (N : Type 0) : Type 0 where
  pub network : N
  pub ri_version : ℕ  -- uint16_t

module _ {N F : Type 0} (n : Device N (WireGripperState F) (GripperRequest F) F) where
  -- The constructor, given the connection to `kCommandPort`.
  unfoldable pub connect_gripper : N → Result (Exception F) (Gripper N) × N
  connect_gripper c =
      (greet n k_gripper_version (connect k_gripper_version (n.udp_port c)) >>= λ version t.
      (ok (record { network = t; ri_version = version }), t))
        c

  -- The methods, on the connection.
  unfoldable pub home_gripper : Method (Exception F) N Bool
  home_gripper = execute n "libfranka gripper" homing

  unfoldable pub grasp_object :
      (width speed force epsilon_inner epsilon_outer : F) → Method (Exception F) N Bool
  grasp_object width speed force epsilon_inner epsilon_outer =
      execute n "libfranka gripper" (grasp width epsilon_inner epsilon_outer speed force)

  unfoldable pub move_gripper : (width speed : F) → Method (Exception F) N Bool
  move_gripper width speed = execute n "libfranka gripper" (move width speed)

  unfoldable pub stop_gripper : Method (Exception F) N Bool
  stop_gripper = execute n "libfranka gripper" stop

  unfoldable pub read_gripper : (fuel : ℕ) → Method (Exception F) N (GripperState F)
  read_gripper fuel = read_with n convert_gripper_state fuel
