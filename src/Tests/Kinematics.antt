-- ===== src/Tests/Kinematics.antt =====
-- A model library whose answers are constant.
use libfranka.Prelude.{arith, ℕ, filled}
use libfranka.Model.{ModelLibrary}
use libfranka.Model.Frames.{Answers, incremented-Answers}

abbrev constant : ModelLibrary ℕ
constant = record {
  body_jacobian_joint1 = filled 1 42;
  body_jacobian_joint2 = λ q. filled 2 42;
  body_jacobian_joint3 = λ q. filled 3 42;
  body_jacobian_joint4 = λ q. filled 4 42;
  body_jacobian_joint5 = λ q. filled 5 42;
  body_jacobian_joint6 = λ q. filled 6 42;
  body_jacobian_joint7 = λ q. filled 7 42;
  body_jacobian_flange = λ q. filled 8 42;
  body_jacobian_ee = λ q t. filled 9 42;
  mass = λ q i m f. filled 1 49;
  zero_jacobian_joint1 = filled 1 42;
  zero_jacobian_joint2 = λ q. filled 2 42;
  zero_jacobian_joint3 = λ q. filled 3 42;
  zero_jacobian_joint4 = λ q. filled 4 42;
  zero_jacobian_joint5 = λ q. filled 5 42;
  zero_jacobian_joint6 = λ q. filled 6 42;
  zero_jacobian_joint7 = λ q. filled 7 42;
  zero_jacobian_flange = λ q. filled 8 42;
  zero_jacobian_ee = λ q t. filled 9 42;
  joint1 = λ q. filled 1 16;
  joint2 = λ q. filled 2 16;
  joint3 = λ q. filled 3 16;
  joint4 = λ q. filled 4 16;
  joint5 = λ q. filled 5 16;
  joint6 = λ q. filled 6 16;
  joint7 = λ q. filled 7 16;
  flange = λ q. filled 8 16;
  ee = λ q t. t;
  coriolis = λ q dq i m f. filled 1 7;
  gravity = λ q g m f. filled 1 7;
}

-- The stiffness frame.
incremented-Answers_example : Answers constant (λ a b. b) 9 (filled 0 7) (filled 0 16) (filled 1 16)
incremented-Answers_example =
    incremented-Answers constant (λ a b. b) 9 (filled 0 7) (filled 0 16) (filled 1 16) (omega arith)
