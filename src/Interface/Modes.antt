-- ===== src/Interface/Modes.antt =====
-- The tests of equality between modes decide equality.
use libfranka.Prelude.{◌≡◌, ◌↔◌, true, arith}
use libfranka.Interface.Rbk.{MotionGeneratorMode, ControllerMode, same_motion, same_controller}

same_motion-eq : (a b : MotionGeneratorMode) → same_motion a b ≡ true → a ≡ b
same_motion-eq a b h = ground arith

same_motion_refl : (a : MotionGeneratorMode) → same_motion a a ≡ true
same_motion_refl a = ground arith

pub same_motion_iff : (a b : MotionGeneratorMode) → (same_motion a b ≡ true) ↔ (a ≡ b)
same_motion_iff a b = (same_motion-eq a b, λ e. rw e (same_motion_refl b))

same_controller-eq : (a b : ControllerMode) → same_controller a b ≡ true → a ≡ b
same_controller-eq a b h = ground arith

same_controller_refl : (a : ControllerMode) → same_controller a a ≡ true
same_controller_refl a = ground arith

pub same_controller_iff : (a b : ControllerMode) → (same_controller a b ≡ true) ↔ (a ≡ b)
same_controller_iff a b = (same_controller-eq a b, λ e. rw e (same_controller_refl b))
