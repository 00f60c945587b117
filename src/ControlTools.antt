-- ===== src/ControlTools.antt =====
-- include/franka/control_tools.h: the checks of a command before it is sent.
use libfranka.Prelude.{
  ℕ, Bool, false, not, ◌&&◌, ◌||◌, Array, nil, ◌▸◌, all_of, Double, nought, unit, Result, ok, raise,
  running, String, true, if◌then◌else◌,
}
use libfranka.Exceptions.{Exception, invalid_argument}

module _ {F : Type 0} ⦃d : Double F⦄ where
  abbrev pub is_valid_elbow : Array F 2 → Bool
  is_valid_elbow (_ ▸ sign ▸ nil) = d.eq sign (d.neg unit) || d.eq sign unit

  -- The length of a column or a row is one, up to `kOrthonormalThreshold`; `>` is false of NaN.
  abbrev pub is_normal : F → F → F → Bool
  is_normal x y z =
      let two = d.literal 2 0 in
      not (
        d.lt (d.literal 1 5)
          (d.abs (d.sub (d.sqrt (d.add (d.add (d.pow x two) (d.pow y two)) (d.pow z two))) unit)))

  abbrev pub is_homogeneous_transformation : Array F 16 → Bool
  is_homogeneous_transformation
        (t0 ▸ t1 ▸ t2 ▸ t3 ▸ t4 ▸ t5 ▸ t6 ▸ t7 ▸ t8 ▸ t9 ▸ t10 ▸ t11 ▸ t12 ▸ t13 ▸ t14 ▸ t15
          ▸ nil) =
      if not (d.eq t3 nought)
        || not (d.eq t7 nought)
        || not (d.eq t11 nought)
        || not (d.eq t15 unit)
      then false
      else is_normal t0 t1 t2
        && is_normal t4 t5 t6
        && is_normal t8 t9 t10
        && is_normal t0 t4 t8
        && is_normal t1 t5 t9
        && is_normal t2 t6 t10

  unfoldable pub check_finite : {n : ℕ} → Array F n → Result (Exception F) (Unit {0})
  check_finite a =
      if not (all_of d.is_finite a)
      then raise (invalid_argument "Commanding value is infinite or NaN.")
      else ok tt

  -- A second test behind a check that passed.
  abbrev pub and_test :
      Result (Exception F) (Unit {0}) → Bool → String → Result (Exception F) (Unit {0})
  and_test (ok _) true what = ok tt
  and_test (ok _) false what = raise (invalid_argument what)
  and_test (raise x) passed what = raise x
  and_test running passed what = running

  unfoldable pub check_matrix : Array F 16 → Result (Exception F) (Unit {0})
  unfolding check_finite
  check_matrix transform =
      and_test (check_finite transform) (is_homogeneous_transformation transform)
        "libfranka: Attempt to set invalid transformation in motion generator. Has to be column major!"

  unfoldable pub check_elbow : Array F 2 → Result (Exception F) (Unit {0})
  unfolding check_finite
  check_elbow elbow =
      and_test (check_finite elbow) (is_valid_elbow elbow)
        "Invalid elbow configuration given! Only +1 or -1 are allowed for the sign of the 4th joint."
