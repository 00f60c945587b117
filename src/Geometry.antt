-- ===== src/Geometry.antt =====
-- What the code does with the vectors, rotations and poses of the library Eigen, which is not part of
-- the repository: a parameter. A matrix is the array of its elements in the order of storage, by
-- columns; a pose is that of its 4 x 4 matrix.
use libfranka.Prelude.{Array}

pub record Geometry (F : Type 0) : Type 0 where
  pub vec_add : Array F 3 → Array F 3 → Array F 3
  pub vec_sub : Array F 3 → Array F 3 → Array F 3
  pub vec_scale : Array F 3 → F → Array F 3
  pub vec_div : Array F 3 → F → Array F 3
  pub norm : Array F 3 → F
  pub squared_norm : Array F 3 → F
  pub dot : Array F 3 → Array F 3 → F
  -- `Affine3d` of a mapped matrix: `translation()` and `rotation()`.
  pub translation : Array F 16 → Array F 3
  pub rotation : Array F 16 → Array F 9
  pub identity_pose : Array F 16
  -- The pose with another `linear()` and another `translation()`.
  pub place : Array F 16 → Array F 9 → Array F 3 → Array F 16
  pub identity : Array F 9
  pub transpose : Array F 9 → Array F 9
  -- `AngleAxisd(rotation)`: the angle and the axis.
  pub angle : Array F 9 → F
  pub axis : Array F 9 → Array F 3
  -- `Quaterniond`
  pub quaternion : Array F 9 → Array F 4
  pub slerp : F → Array F 4 → Array F 4 → Array F 4
  pub normalized : Array F 4 → Array F 4
  pub to_rotation_matrix : Array F 4 → Array F 9
