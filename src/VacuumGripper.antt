-- ===== src/VacuumGripper.antt =====
-- src/vacuum_gripper.cpp, include/franka/vacuum_gripper_state.h and
-- common/include/research_interface/vacuum_gripper/types.h. A timeout is its count of milliseconds; the
-- two numbers of type int32_t in a datagram are given as their bit patterns, numbers below 2 ^ 32.
use libfranka.Prelude.{ℕ, ◌%◌, ◌^◌, ◌<◌, ◌≡◌, ◌↔◌, Bool, Result, ok, Method, ◌>>=◌, arith}
use libfranka.Exceptions.{Exception}
use libfranka.Duration.{Duration, of_msec}
use libfranka.Device.{Device, execute, greet, read_with}

-- `ProductionSetupProfile`, and `Profile` of the request.
pub data ProductionSetupProfile : Type 0 where
  p0 p1 p2 p3 : ProductionSetupProfile

pub data Profile : Type 0 where
  p0 p1 p2 p3 : Profile

-- `DeviceStatus` of the datagram, and `VacuumGripperDeviceStatus`.
pub data DeviceStatus : Type 0 where
  green yellow orange red : DeviceStatus

pub data VacuumGripperDeviceStatus : Type 0 where
  green yellow orange red : VacuumGripperDeviceStatus

pub data VacuumRequest : Type 0 where
  connect : (version udp_port : ℕ) → VacuumRequest
  vacuum : (strength : ℕ) → Profile → (timeout : ℕ) → VacuumRequest
  drop_off : (timeout : ℕ) → VacuumRequest
  stop : VacuumRequest

-- `research_interface::vacuum_gripper::VacuumGripperState`
pub record WireVacuumState : Type 0 where
  pub message_id : ℕ  -- uint32_t
  pub in_control_range : Bool
  pub part_detached : Bool
  pub part_present : Bool
  pub device_status : DeviceStatus
  pub actual_power : ℕ  -- int32_t
  pub vacuum : ℕ  -- int32_t

pub record VacuumGripperState : Type 0 where
  pub in_control_range : Bool
  pub part_detached : Bool
  pub part_present : Bool
  pub device_status : VacuumGripperDeviceStatus
  pub actual_power : ℕ  -- uint16_t
  pub vacuum : ℕ  -- uint16_t
  pub time : Duration

-- `kVersion`
abbrev pub k_vacuum_version : ℕ
k_vacuum_version = 1

abbrev pub convert_status : DeviceStatus → VacuumGripperDeviceStatus
convert_status DeviceStatus.green = VacuumGripperDeviceStatus.green
convert_status DeviceStatus.yellow = VacuumGripperDeviceStatus.yellow
convert_status DeviceStatus.orange = VacuumGripperDeviceStatus.orange
convert_status DeviceStatus.red = VacuumGripperDeviceStatus.red

-- The two numbers are assigned to `uint16_t`.
unfoldable pub convert_vacuum_state : WireVacuumState → VacuumGripperState
convert_vacuum_state s = record {
  in_control_range = s.in_control_range;
  part_detached = s.part_detached;
  part_present = s.part_present;
  device_status = convert_status s.device_status;
  actual_power = s.actual_power % 2 ^ 16;
  vacuum = s.vacuum % 2 ^ 16;
  time = of_msec s.message_id;
}

abbrev pub convert_profile : ProductionSetupProfile → Profile
convert_profile ProductionSetupProfile.p0 = Profile.p0
convert_profile ProductionSetupProfile.p1 = Profile.p1
convert_profile ProductionSetupProfile.p2 = Profile.p2
convert_profile ProductionSetupProfile.p3 = Profile.p3

pub record VacuumGripper (N : Type 0) : Type 0 where
  pub network : N
  pub ri_version : ℕ  -- uint16_t

module _ {N F : Type 0} (n : Device N WireVacuumState VacuumRequest F) where
  unfoldable pub connect_vacuum : N → Result (Exception F) (VacuumGripper N) × N
  connect_vacuum c =
      (greet n k_vacuum_version (VacuumRequest.connect k_vacuum_version (n.udp_port c))
          >>= λ version t. (ok (record { network = t; ri_version = version }), t))
        c

  unfoldable pub apply_vacuum :
      (strength timeout : ℕ) → ProductionSetupProfile → Method (Exception F) N Bool
  apply_vacuum strength timeout profile =
      execute n "libfranka vacuum gripper"
        (VacuumRequest.vacuum strength (convert_profile profile) timeout)

  unfoldable pub drop_off_part : (timeout : ℕ) → Method (Exception F) N Bool
  drop_off_part timeout = execute n "libfranka vacuum gripper" (VacuumRequest.drop_off timeout)

  unfoldable pub stop_vacuum : Method (Exception F) N Bool
  stop_vacuum = execute n "libfranka vacuum gripper" VacuumRequest.stop

  unfoldable pub read_vacuum : (fuel : ℕ) → Method (Exception F) N VacuumGripperState
  read_vacuum fuel = read_with n convert_vacuum_state fuel

-- The power and the vacuum of a state are those of the datagram exactly if they are less than 2 ^ 16.
pub convert_vacuum_state-exact :
    (s : WireVacuumState)
    → ((convert_vacuum_state s).actual_power ≡ s.actual_power)
        × ((convert_vacuum_state s).vacuum ≡ s.vacuum)
      ↔ ((s.actual_power < 2 ^ 16) × (s.vacuum < 2 ^ 16))
unfolding convert_vacuum_state
convert_vacuum_state-exact s = (
  (λ h. (fits s.actual_power h.0, fits s.vacuum h.1)),
  (λ h. (kept s.actual_power h.0, kept s.vacuum h.1)),
)
  where
    fits : (a : ℕ) → a % 2 ^ 16 ≡ a → a < 2 ^ 16
    fits a h = omega arith

    kept : (a : ℕ) → a < 2 ^ 16 → a % 2 ^ 16 ≡ a
    kept a h = omega arith
