-- ===== src/Model/Kinematics.antt =====
-- `Frame` of include/franka/model.h, `ModelLibrary` of src/model_library.h, and the poses and Jacobians
-- of src/model.cpp.
use libfranka.Prelude.{
  Option, some, none, ltb, ◌^◌, if◌then◌else◌, ℕ, ◌+◌, Array, [], ◌∷◌, get_or, Result, ok, raise,
}
use libfranka.Exceptions.{Exception, invalid_argument}
use libfranka.RobotState.{RobotState}

-- `enum class Frame`; `unlisted n` is the value `n` behind the enumerators.
pub data Frame : Type 0 where
  joint1 joint2 joint3 joint4 joint5 joint6 joint7 : Frame
  flange end_effector stiffness : Frame
  unlisted : ℕ → Frame

abbrev pub underlying : Frame → ℕ
underlying joint1 = 0
underlying joint2 = 1
underlying joint3 = 2
underlying joint4 = 3
underlying joint5 = 4
underlying joint6 = 5
underlying joint7 = 6
underlying flange = 7
underlying end_effector = 8
underlying stiffness = 9
underlying (unlisted n) = n

-- `static_cast<Frame>`
abbrev pub frame_of : ℕ → Frame
frame_of n =
    get_or
      (joint1 ∷ joint2 ∷ joint3 ∷ joint4 ∷ joint5 ∷ joint6 ∷ joint7 ∷ flange ∷ end_effector
        ∷ stiffness ∷ [])
      n (unlisted n)

-- `operator++(Frame&, int)`: what it returns, and the frame behind it. The underlying type is `int` of
-- 32 bits; the increment of its greatest value is undefined, `none`.
unfoldable pub post_increment : Frame → Option (Frame × Frame)
post_increment frame =
    if ltb (underlying frame + 1) (2 ^ 31)
    then some (frame, frame_of (underlying frame + 1))
    else none

-- The functions of src/libfcimodels.h by the members that hold them; an output array is the result.
pub record ModelLibrary (F : Type 0) : Type 0 where
  pub body_jacobian_joint1 : Array F 42
  pub body_jacobian_joint2 : Array F 7 → Array F 42
  pub body_jacobian_joint3 : Array F 7 → Array F 42
  pub body_jacobian_joint4 : Array F 7 → Array F 42
  pub body_jacobian_joint5 : Array F 7 → Array F 42
  pub body_jacobian_joint6 : Array F 7 → Array F 42
  pub body_jacobian_joint7 : Array F 7 → Array F 42
  pub body_jacobian_flange : Array F 7 → Array F 42
  pub body_jacobian_ee : Array F 7 → Array F 16 → Array F 42
  pub mass : (q : Array F 7) (i_load : Array F 9) (m_load : F) (f_x_cload : Array F 3) → Array F 49
  pub zero_jacobian_joint1 : Array F 42
  pub zero_jacobian_joint2 : Array F 7 → Array F 42
  pub zero_jacobian_joint3 : Array F 7 → Array F 42
  pub zero_jacobian_joint4 : Array F 7 → Array F 42
  pub zero_jacobian_joint5 : Array F 7 → Array F 42
  pub zero_jacobian_joint6 : Array F 7 → Array F 42
  pub zero_jacobian_joint7 : Array F 7 → Array F 42
  pub zero_jacobian_flange : Array F 7 → Array F 42
  pub zero_jacobian_ee : Array F 7 → Array F 16 → Array F 42
  pub joint1 : Array F 7 → Array F 16
  pub joint2 : Array F 7 → Array F 16
  pub joint3 : Array F 7 → Array F 16
  pub joint4 : Array F 7 → Array F 16
  pub joint5 : Array F 7 → Array F 16
  pub joint6 : Array F 7 → Array F 16
  pub joint7 : Array F 7 → Array F 16
  pub flange : Array F 7 → Array F 16
  pub ee : Array F 7 → Array F 16 → Array F 16
  pub coriolis :
      (q dq : Array F 7) (i_load : Array F 9) (m_load : F) (f_x_cload : Array F 3) → Array F 7
  pub gravity :
      (q : Array F 7) (g_earth : Array F 3) (m_load : F) (f_x_cload : Array F 3) → Array F 7

-- `default: throw std::invalid_argument(...)`
abbrev pub invalid_frame : {F A : Type 0} → Result (Exception F) A
invalid_frame = raise (invalid_argument "Invalid frame given.")

-- `product` is the product of two `Eigen::Matrix4d`.
module _ {F : Type 0} (library : ModelLibrary F)
    (product : Array F 16 → Array F 16 → Array F 16) where
  unfoldable pub pose :
      Frame → Array F 7 → (f_t_ee ee_t_k : Array F 16) → Result (Exception F) (Array F 16)
  pose Frame.joint1 q f_t_ee ee_t_k = ok (library.joint1 q)
  pose Frame.joint2 q f_t_ee ee_t_k = ok (library.joint2 q)
  pose Frame.joint3 q f_t_ee ee_t_k = ok (library.joint3 q)
  pose Frame.joint4 q f_t_ee ee_t_k = ok (library.joint4 q)
  pose Frame.joint5 q f_t_ee ee_t_k = ok (library.joint5 q)
  pose Frame.joint6 q f_t_ee ee_t_k = ok (library.joint6 q)
  pose Frame.joint7 q f_t_ee ee_t_k = ok (library.joint7 q)
  pose Frame.flange q f_t_ee ee_t_k = ok (library.flange q)
  pose end_effector q f_t_ee ee_t_k = ok (library.ee q f_t_ee)
  pose stiffness q f_t_ee ee_t_k = ok (library.ee q (product f_t_ee ee_t_k))
  pose (unlisted n) q f_t_ee ee_t_k = invalid_frame

  unfoldable pub body_jacobian :
      Frame → Array F 7 → (f_t_ee ee_t_k : Array F 16) → Result (Exception F) (Array F 42)
  body_jacobian Frame.joint1 q f_t_ee ee_t_k = ok library.body_jacobian_joint1
  body_jacobian Frame.joint2 q f_t_ee ee_t_k = ok (library.body_jacobian_joint2 q)
  body_jacobian Frame.joint3 q f_t_ee ee_t_k = ok (library.body_jacobian_joint3 q)
  body_jacobian Frame.joint4 q f_t_ee ee_t_k = ok (library.body_jacobian_joint4 q)
  body_jacobian Frame.joint5 q f_t_ee ee_t_k = ok (library.body_jacobian_joint5 q)
  body_jacobian Frame.joint6 q f_t_ee ee_t_k = ok (library.body_jacobian_joint6 q)
  body_jacobian Frame.joint7 q f_t_ee ee_t_k = ok (library.body_jacobian_joint7 q)
  body_jacobian Frame.flange q f_t_ee ee_t_k = ok (library.body_jacobian_flange q)
  body_jacobian end_effector q f_t_ee ee_t_k = ok (library.body_jacobian_ee q f_t_ee)
  body_jacobian stiffness q f_t_ee ee_t_k = ok (library.body_jacobian_ee q (product f_t_ee ee_t_k))
  body_jacobian (unlisted n) q f_t_ee ee_t_k = invalid_frame

  unfoldable pub zero_jacobian :
      Frame → Array F 7 → (f_t_ee ee_t_k : Array F 16) → Result (Exception F) (Array F 42)
  zero_jacobian Frame.joint1 q f_t_ee ee_t_k = ok library.zero_jacobian_joint1
  zero_jacobian Frame.joint2 q f_t_ee ee_t_k = ok (library.zero_jacobian_joint2 q)
  zero_jacobian Frame.joint3 q f_t_ee ee_t_k = ok (library.zero_jacobian_joint3 q)
  zero_jacobian Frame.joint4 q f_t_ee ee_t_k = ok (library.zero_jacobian_joint4 q)
  zero_jacobian Frame.joint5 q f_t_ee ee_t_k = ok (library.zero_jacobian_joint5 q)
  zero_jacobian Frame.joint6 q f_t_ee ee_t_k = ok (library.zero_jacobian_joint6 q)
  zero_jacobian Frame.joint7 q f_t_ee ee_t_k = ok (library.zero_jacobian_joint7 q)
  zero_jacobian Frame.flange q f_t_ee ee_t_k = ok (library.zero_jacobian_flange q)
  zero_jacobian end_effector q f_t_ee ee_t_k = ok (library.zero_jacobian_ee q f_t_ee)
  zero_jacobian stiffness q f_t_ee ee_t_k = ok (library.zero_jacobian_ee q (product f_t_ee ee_t_k))
  zero_jacobian (unlisted n) q f_t_ee ee_t_k = invalid_frame

  -- The overloads that take a `RobotState`.
  unfoldable pub pose_in : Frame → RobotState F → Result (Exception F) (Array F 16)
  unfolding pose
  pose_in frame s = pose frame s.q s.f_t_ee s.ee_t_k

  unfoldable pub body_jacobian_in : Frame → RobotState F → Result (Exception F) (Array F 42)
  unfolding body_jacobian
  body_jacobian_in frame s = body_jacobian frame s.q s.f_t_ee s.ee_t_k

  unfoldable pub zero_jacobian_in : Frame → RobotState F → Result (Exception F) (Array F 42)
  unfolding zero_jacobian
  zero_jacobian_in frame s = zero_jacobian frame s.q s.f_t_ee s.ee_t_k
