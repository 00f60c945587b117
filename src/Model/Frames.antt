-- ===== src/Model/Frames.antt =====
-- The frames that `for (Frame frame = Frame::kJoint1; ...; frame++)` goes through.
use libfranka.Prelude.{
  ℕ, zero, suc, ◌+◌, ◌^◌, ◌<◌, ◌≡◌, ap, ◌∙◌, refl, Bool, true, ltb, Option, none, some, Array, List,
  [], ◌∷◌, Result, ok, if◌then◌else◌, arith,
}
use libfranka.Exceptions.{Exception}
use libfranka.Model.Kinematics.{
  Frame, invalid_frame, frame_of, post_increment, ModelLibrary, pose, body_jacobian, zero_jacobian,
}

-- The frame behind `n` increments, while they are defined.
unfoldable pub incremented : ℕ → Frame → Option Frame
unfolding post_increment
incremented zero frame = some frame
incremented (suc n) frame = elim (post_increment frame) [ none ↦ none | some p ↦ incremented n p.1 ]

-- Element `n` of a list, and the exception of an invalid frame behind its end.
abbrev pub given : {F A : Type 0} → ℕ → List A → Result (Exception F) A
given n [] = invalid_frame
given zero (x ∷ xs) = ok x
given (suc n) (x ∷ xs) = given n xs

-- What the library says of the seven joints, the flange, the end effector and the stiffness frame, whose
-- transformation from the flange is the product of the two that are given: `O_T_J1` to `O_T_J9`, `Ji_J_J1`
-- to `Ji_J_J9` and `O_J_J1` to `O_J_J9` of src/libfcimodels.h.
module _ {F : Type 0} (library : ModelLibrary F) (product : Array F 16 → Array F 16 → Array F 16)
    (q : Array F 7) (f_t_ee ee_t_k : Array F 16) where
  abbrev pub poses : List (Array F 16)
  poses =
      library.joint1 q
      ∷ library.joint2 q
      ∷ library.joint3 q
      ∷ library.joint4 q
      ∷ library.joint5 q
      ∷ library.joint6 q
      ∷ library.joint7 q
      ∷ library.flange q
      ∷ library.ee q f_t_ee
      ∷ library.ee q (product f_t_ee ee_t_k)
      ∷ []

  abbrev pub body_jacobians : List (Array F 42)
  body_jacobians =
      library.body_jacobian_joint1
      ∷ library.body_jacobian_joint2 q
      ∷ library.body_jacobian_joint3 q
      ∷ library.body_jacobian_joint4 q
      ∷ library.body_jacobian_joint5 q
      ∷ library.body_jacobian_joint6 q
      ∷ library.body_jacobian_joint7 q
      ∷ library.body_jacobian_flange q
      ∷ library.body_jacobian_ee q f_t_ee
      ∷ library.body_jacobian_ee q (product f_t_ee ee_t_k)
      ∷ []

  abbrev pub zero_jacobians : List (Array F 42)
  zero_jacobians =
      library.zero_jacobian_joint1
      ∷ library.zero_jacobian_joint2 q
      ∷ library.zero_jacobian_joint3 q
      ∷ library.zero_jacobian_joint4 q
      ∷ library.zero_jacobian_joint5 q
      ∷ library.zero_jacobian_joint6 q
      ∷ library.zero_jacobian_joint7 q
      ∷ library.zero_jacobian_flange q
      ∷ library.zero_jacobian_ee q f_t_ee
      ∷ library.zero_jacobian_ee q (product f_t_ee ee_t_k)
      ∷ []

abbrev ten_above : ℕ → ℕ
ten_above k = suc (suc (suc (suc (suc (suc (suc (suc (suc (suc k)))))))))

-- Behind the enumerators, the increments stay there.
incremented-unlisted :
    (n k : ℕ)
    → ten_above k + n < 2 ^ 31
    → (j : ℕ) × (incremented n (Frame.unlisted (ten_above k)) ≡ some (Frame.unlisted j))
unfolding incremented post_increment
incremented-unlisted zero k h = (ten_above k, refl)
incremented-unlisted (suc n) k h =
    let (j, e) = incremented-unlisted n (suc k) (omega (arith, h)) in
    let defined : ltb (ten_above k + 1) (2 ^ 31) ≡ true = below (ten_above k) n h in
    let next : Bool → Option (Frame × Frame) =
      λ b. if b then some (Frame.unlisted (ten_above k), frame_of (ten_above k + 1)) else none in
    (
      j,
      ap (λ b. elim (next b) as (λ _. Option Frame) [ none ↦ none | some p ↦ incremented n p.1 ])
            defined
          ∙ ap (λ m. incremented n (frame_of m)) (one_more (ten_above k))
          ∙ e,
    )
  where
    one_more : (k : ℕ) → k + 1 ≡ suc k
    one_more k = omega arith

    below : (k n : ℕ) → k + suc n < 2 ^ 31 → ltb (k + 1) (2 ^ 31) ≡ true
    below k n h = ground arith

module _ {F : Type 0} (library : ModelLibrary F)
    (product : Array F 16 → Array F 16 → Array F 16) where
  -- The frame after `n` increments is there, and all three functions answer with element `n` of their
  -- lists, or refuse it behind the end of these.
  abbrev pub Answers : ℕ → Array F 7 → (f_t_ee ee_t_k : Array F 16) → Type 0
  Answers n q f_t_ee ee_t_k =
      (frame : Frame) × (incremented n Frame.joint1 ≡ some frame)
      × (pose library product frame q f_t_ee ee_t_k
          ≡ given n (poses library product q f_t_ee ee_t_k))
      × (body_jacobian library product frame q f_t_ee ee_t_k
          ≡ given n (body_jacobians library product q f_t_ee ee_t_k))
      × (zero_jacobian library product frame q f_t_ee ee_t_k
          ≡ given n (zero_jacobians library product q f_t_ee ee_t_k))

  -- For fewer than 2 ^ 31 increments of `Frame::kJoint1`, none of which overflows: after fewer than ten,
  -- `pose`, `bodyJacobian` and `zeroJacobian` give what the library says of the frame at that place among
  -- the seven joints, the flange, the end effector and the stiffness frame; after ten or more, all three
  -- throw the exception of an invalid frame.
  pub incremented-Answers :
      (n : ℕ) (q : Array F 7) (f_t_ee ee_t_k : Array F 16) → n < 2 ^ 31 → Answers n q f_t_ee ee_t_k
  unfolding incremented post_increment pose body_jacobian zero_jacobian
  incremented-Answers zero q f_t_ee ee_t_k h = (_, refl, refl, refl, refl)
  incremented-Answers (suc zero) q f_t_ee ee_t_k h = (_, refl, refl, refl, refl)
  incremented-Answers (suc (suc zero)) q f_t_ee ee_t_k h = (_, refl, refl, refl, refl)
  incremented-Answers (suc (suc (suc zero))) q f_t_ee ee_t_k h = (_, refl, refl, refl, refl)
  incremented-Answers (suc (suc (suc (suc zero)))) q f_t_ee ee_t_k h = (_, refl, refl, refl, refl)
  incremented-Answers (suc (suc (suc (suc (suc zero))))) q f_t_ee ee_t_k h =
      (_, refl, refl, refl, refl)
  incremented-Answers (suc (suc (suc (suc (suc (suc zero)))))) q f_t_ee ee_t_k h =
      (_, refl, refl, refl, refl)
  incremented-Answers (suc (suc (suc (suc (suc (suc (suc zero))))))) q f_t_ee ee_t_k h =
      (_, refl, refl, refl, refl)
  incremented-Answers (suc (suc (suc (suc (suc (suc (suc (suc zero)))))))) q f_t_ee ee_t_k h =
      (_, refl, refl, refl, refl)
  incremented-Answers (suc (suc (suc (suc (suc (suc (suc (suc (suc zero))))))))) q f_t_ee ee_t_k h =
      (_, refl, refl, refl, refl)
  incremented-Answers (suc (suc (suc (suc (suc (suc (suc (suc (suc (suc n)))))))))) q f_t_ee ee_t_k
        h =
      let (j, e) = incremented-unlisted n 0 (omega (arith, h)) in
      (Frame.unlisted j, e, refl, refl, refl)
