-- ===== src/Model/Dynamics.antt =====
-- The mass matrix, the Coriolis vector and the gravity vector of src/model.cpp. A suffix `_in` marks
-- the overload that takes a `RobotState`.
use libfranka.Prelude.{Array}
use libfranka.RobotState.{RobotState}
use libfranka.Model.Kinematics.{ModelLibrary}

module _ {F : Type 0} (library : ModelLibrary F) where
  unfoldable pub mass :
      (q : Array F 7) (i_total : Array F 9) (m_total : F) (f_x_ctotal : Array F 3) → Array F 49
  mass q i_total m_total f_x_ctotal = library.mass q i_total m_total f_x_ctotal

  unfoldable pub mass_in : RobotState F → Array F 49
  unfolding mass
  mass_in s = mass s.q s.i_total s.m_total s.f_x_ctotal

  unfoldable pub coriolis :
      (q dq : Array F 7) (i_total : Array F 9) (m_total : F) (f_x_ctotal : Array F 3) → Array F 7
  coriolis q dq i_total m_total f_x_ctotal = library.coriolis q dq i_total m_total f_x_ctotal

  unfoldable pub coriolis_in : RobotState F → Array F 7
  unfolding coriolis
  coriolis_in s = coriolis s.q s.dq s.i_total s.m_total s.f_x_ctotal

  unfoldable pub gravity :
      (q : Array F 7) (m_total : F) (f_x_ctotal gravity_earth : Array F 3) → Array F 7
  gravity q m_total f_x_ctotal gravity_earth = library.gravity q gravity_earth m_total f_x_ctotal

  unfoldable pub gravity_under : RobotState F → (gravity_earth : Array F 3) → Array F 7
  unfolding gravity
  gravity_under s gravity_earth = gravity s.q s.m_total s.f_x_ctotal gravity_earth

  unfoldable pub gravity_in : RobotState F → Array F 7
  unfolding gravity_under
  gravity_in s = gravity_under s s.o_ddp_o
