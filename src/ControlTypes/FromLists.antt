-- ===== src/ControlTypes/FromLists.antt =====
-- The constructors of src/control_types.cpp from arrays and from `std::initializer_list`, and
-- `MotionFinished` of include/franka/control_types.h.
use mathlib.Core.Path.{subst}
use libfranka.Prelude.{
  ℕ, suc, String, ◌≡◌, ◌∙◌, ◌↔◌, refl, sym, ap, Bool, true, false, not, List, [], ◌∷◌, length,
  Array, nil, ◌▸◌, filled, to_list, Double, nought, Result, ok, raise, bind, bind-ok, Bool-cases,
  if◌then◌else◌, ◌==◌, inl, inr, arith, eq-true, eq_refl,
}
use libfranka.ControlTypes.{
  Torques, JointPositions, JointVelocities, CartesianPose, CartesianVelocities, Motion,
  joint_positions, joint_velocities, cartesian_pose, cartesian_velocities,
}
use libfranka.Exceptions.{Exception, invalid_argument}

module _ {F : Type 0} where
  abbrev pub torques_of : Array F 7 → Torques F
  torques_of torques = record { tau_j = torques; motion_finished = false }

  abbrev pub joint_positions_of : Array F 7 → JointPositions F
  joint_positions_of positions = record { q = positions; motion_finished = false }

  abbrev pub joint_velocities_of : Array F 7 → JointVelocities F
  joint_velocities_of velocities = record { dq = velocities; motion_finished = false }

  abbrev pub pose_with_elbow_of : Array F 16 → Array F 2 → CartesianPose F
  pose_with_elbow_of pose elbow = record { o_t_ee = pose; elbow = elbow; motion_finished = false }

  abbrev pub velocities_with_elbow_of : Array F 6 → Array F 2 → CartesianVelocities F
  velocities_with_elbow_of velocities elbow = record {
    o_dp_ee = velocities;
    elbow = elbow;
    motion_finished = false;
  }

  -- `std::copy` to the elements from the first on; what lies behind the array is not written.
  unfoldable pub copy : {n : ℕ} → List F → Array F n → Array F n
  copy [] v = v
  copy (x ∷ xs) nil = nil
  copy (x ∷ xs) (_ ▸ v) = x ▸ copy xs v

  -- `MotionFinished` of a motion and of torques.
  abbrev pub finish_motion_of : Motion F → Motion F
  finish_motion_of (joint_positions m) = joint_positions (record m { motion_finished = true })
  finish_motion_of (joint_velocities m) = joint_velocities (record m { motion_finished = true })
  finish_motion_of (cartesian_pose m) = cartesian_pose (record m { motion_finished = true })
  finish_motion_of (cartesian_velocities m) =
      cartesian_velocities (record m { motion_finished = true })

  abbrev pub finish_torques_of : Torques F → Torques F
  finish_torques_of t = record t { motion_finished = true }

module _ {F : Type 0} ⦃d : Double F⦄ where
  abbrev pub pose_of : Array F 16 → CartesianPose F
  pose_of pose = pose_with_elbow_of pose (filled nought 2)

  abbrev pub velocities_of : Array F 6 → CartesianVelocities F
  velocities_of velocities = velocities_with_elbow_of velocities (filled nought 2)

  -- The check of the size and the copy.
  unfoldable pub sized : (n : ℕ) → String → List F → Result (Exception F) (Array F n)
  unfolding copy
  sized n what xs =
      if not (length xs == n) then raise (invalid_argument what) else ok (copy xs (filled nought n))

  unfoldable pub torques_of_list : List F → Result (Exception F) (Torques F)
  torques_of_list xs =
      bind (sized 7 "Invalid number of elements in tau_J." xs) λ v. ok (torques_of v)

  unfoldable pub joint_positions_of_list : List F → Result (Exception F) (JointPositions F)
  joint_positions_of_list xs =
      bind (sized 7 "Invalid number of elements in joint_positions." xs)
        λ v. ok (joint_positions_of v)

  unfoldable pub joint_velocities_of_list : List F → Result (Exception F) (JointVelocities F)
  joint_velocities_of_list xs =
      bind (sized 7 "Invalid number of elements in joint_velocities." xs)
        λ v. ok (joint_velocities_of v)

  unfoldable pub pose_of_list : List F → Result (Exception F) (CartesianPose F)
  pose_of_list xs =
      bind (sized 16 "Invalid number of elements in cartesian_pose." xs) λ v. ok (pose_of v)

  unfoldable pub pose_of_lists : (pose elbow : List F) → Result (Exception F) (CartesianPose F)
  pose_of_lists pose elbow =
      bind (sized 16 "Invalid number of elements in cartesian_pose." pose) λ v.
        bind (sized 2 "Invalid number of elements in elbow." elbow) λ w. ok (pose_with_elbow_of v w)

  unfoldable pub velocities_of_list : List F → Result (Exception F) (CartesianVelocities F)
  velocities_of_list xs =
      bind (sized 6 "Invalid number of elements in cartesian_velocities." xs)
        λ v. ok (velocities_of v)

  unfoldable pub velocities_of_lists :
      (velocities elbow : List F) → Result (Exception F) (CartesianVelocities F)
  velocities_of_lists velocities elbow =
      bind (sized 6 "Invalid number of elements in cartesian_velocities." velocities) λ v.
        bind (sized 2 "Invalid number of elements in elbow." elbow)
          λ w. ok (velocities_with_elbow_of v w)

  length-to_list : {n : ℕ} (v : Array F n) → length (to_list v) ≡ n
  length-to_list nil = refl
  length-to_list (x ▸ v) = ap suc (length-to_list v)

  copy-to_list : {n : ℕ} (v w : Array F n) → copy (to_list v) w ≡ v
  unfolding copy
  copy-to_list nil nil = refl
  copy-to_list (x ▸ v) (y ▸ w) = ap (λ u. x ▸ u) (copy-to_list v w)

  to_list-copy : {n : ℕ} (xs : List F) (w : Array F n) → length xs ≡ n → to_list (copy xs w) ≡ xs
  unfolding copy
  to_list-copy [] nil h = refl
  to_list-copy [] (y ▸ w) h = absurd (cc)
  to_list-copy (x ∷ xs) nil h = absurd (cc)
  to_list-copy (x ∷ xs) (y ▸ w) h = ap (λ l. x ∷ l) (to_list-copy xs w (omega (arith, h)))

  -- A list of the right size is the list of the array, and only such a list is taken.
  sized-to_list : (n : ℕ) (what : String) (v : Array F n) → sized n what (to_list v) ≡ ok v
  unfolding sized
  sized-to_list n what v =
      ap
        (λ m.
          if not (m == n)
          then raise (invalid_argument what)
          else ok (copy (to_list v) (filled nought n)))
        (length-to_list v)
      ∙ ap
          (λ b.
            if not b
            then raise (invalid_argument what)
            else ok (copy (to_list v) (filled nought n)))
          (eq_refl n)
      ∙ ap ok (copy-to_list v (filled nought n))

  sized-ok :
      (n : ℕ) (what : String) (xs : List F) (v : Array F n)
      → sized n what xs ≡ ok v
      → to_list v ≡ xs
  unfolding sized
  sized-ok n what xs v h = elim (Bool-cases (length xs == n)) [
    | inl fits ↦
        sym (ap to_list (taken (branch true fits h)))
        ∙ to_list-copy xs (filled nought n) (eq-true (length xs) n fits)
    | inr unfit ↦ absurd (let k = branch false unfit h in cc)
  ]
    where
      branch :
          (b : Bool)
          → (length xs == n) ≡ b
          → ◌≡◌ {A = Result (Exception F) (Array F n)}
              (if not (length xs == n)
                then raise (invalid_argument what)
                else ok (copy xs (filled nought n)))
              (ok v)
          → ◌≡◌ {A = Result (Exception F) (Array F n)}
              (if not b then raise (invalid_argument what) else ok (copy xs (filled nought n)))
              (ok v)
      branch b e q = rw (← e) q

      taken : {a b : Array F n} → ◌≡◌ {A = Result (Exception F) (Array F n)} (ok a) (ok b) → a ≡ b
      taken q = cc

  ok_value : {A : Type 0} {a b : A} → ◌≡◌ {A = Result (Exception F) A} (ok a) (ok b) → a ≡ b
  ok_value h = cc

  -- The constructor of torques from a list gives an object exactly if its elements are those of the
  -- list, in order, and it does not finish the motion.
  pub torques_of_list-ok :
      (xs : List F) (t : Torques F)
      → (torques_of_list xs ≡ ok t) ↔ ((to_list t.tau_j ≡ xs) × (t.motion_finished ≡ false))
  unfolding torques_of_list
  torques_of_list-ok xs t = (read, written)
    where
      read : torques_of_list xs ≡ ok t → (to_list t.tau_j ≡ xs) × (t.motion_finished ≡ false)
      read h =
          let (v, e, k) = bind-ok (sized 7 "Invalid number of elements in tau_J." xs) _ h in
          let same = ok_value k in
          (
            subst (λ (u : Torques F). to_list u.tau_j ≡ xs) same (sized-ok 7 _ xs v e),
            ap (λ (u : Torques F). u.motion_finished) (sym same),
          )

      written : (to_list t.tau_j ≡ xs) × (t.motion_finished ≡ false) → torques_of_list xs ≡ ok t
      written (l, m) =
          ap (λ ys. bind (sized 7 "Invalid number of elements in tau_J." ys) λ v. ok (torques_of v))
            (sym l)
          ∙ ap (λ r. bind r λ v. ok (torques_of v))
              (sized-to_list 7 "Invalid number of elements in tau_J." t.tau_j)
          ∙ ap (λ b. ok (record t { motion_finished = b })) (sym m)

  -- The constructor of a pose from two lists gives an object exactly if its elements and those of its
  -- elbow are those of the lists, in order, and it does not finish the motion.
  pub pose_of_lists-ok :
      (xs ys : List F) (p : CartesianPose F)
      → (pose_of_lists xs ys ≡ ok p)
        ↔ ((to_list p.o_t_ee ≡ xs) × (to_list p.elbow ≡ ys) × (p.motion_finished ≡ false))
  unfolding pose_of_lists
  pose_of_lists-ok xs ys p = (read, written)
    where
      read :
          pose_of_lists xs ys ≡ ok p
          → (to_list p.o_t_ee ≡ xs) × (to_list p.elbow ≡ ys) × (p.motion_finished ≡ false)
      read h =
          let (v, e, k) =
            bind-ok (sized 16 "Invalid number of elements in cartesian_pose." xs) _ h in
          let (w, e', k') = bind-ok (sized 2 "Invalid number of elements in elbow." ys) _ k in
          let same = ok_value k' in
          (
            subst (λ (u : CartesianPose F). to_list u.o_t_ee ≡ xs) same (sized-ok 16 _ xs v e),
            subst (λ (u : CartesianPose F). to_list u.elbow ≡ ys) same (sized-ok 2 _ ys w e'),
            ap (λ (u : CartesianPose F). u.motion_finished) (sym same),
          )

      written :
          (to_list p.o_t_ee ≡ xs) × (to_list p.elbow ≡ ys) × (p.motion_finished ≡ false)
          → pose_of_lists xs ys ≡ ok p
      written (l, l', m) =
          ap
            (λ r. bind r λ v.
              bind (sized 2 "Invalid number of elements in elbow." ys)
                λ w. ok (pose_with_elbow_of v w))
            (ap (sized 16 "Invalid number of elements in cartesian_pose.") (sym l)
              ∙ sized-to_list 16 "Invalid number of elements in cartesian_pose." p.o_t_ee)
          ∙ ap (λ r. bind r λ w. ok (pose_with_elbow_of p.o_t_ee w))
              (ap (sized 2 "Invalid number of elements in elbow.") (sym l')
                ∙ sized-to_list 2 "Invalid number of elements in elbow." p.elbow)
          ∙ ap (λ b. ok (record p { motion_finished = b })) (sym m)
