-- ===== src/LowpassFilter.antt =====
-- src/lowpass_filter.cpp: the first-order filters of a signal and of a Cartesian pose.
use libfranka.Prelude.{
  ℕ, String, ◌<>◌, not, ◌&&◌, ◌||◌, Bool, Array, nil, ◌▸◌, all_of, Double, nought, unit, Result, ok,
  raise, if◌then◌else◌,
}
use libfranka.Geometry.{Geometry}
use libfranka.RateLimiting.{cons_result}
use libfranka.Exceptions.{Exception, invalid_argument}

module _ {F : Type 0} ⦃d : Double F⦄ where
  -- `sample_time / (sample_time + (1.0 / (2.0 * M_PI * cutoff_frequency)))`
  abbrev pub gain : (sample_time cutoff_frequency : F) → F
  gain sample_time cutoff_frequency =
      d.div sample_time
        (d.add sample_time (d.div unit (d.mul (d.mul (d.literal 2 0) d.m_pi) cutoff_frequency)))

  -- The guards that both filters have: the first one that fails throws.
  abbrev pub checked_filter :
      {A : Type 0}
      → (of : String) → (sample_time cutoff_frequency : F) → (finite : Bool) → A
      → Result (Exception F) A
  checked_filter of sample_time cutoff_frequency finite value =
      if d.lt sample_time nought || not (d.is_finite sample_time)
      then raise (invalid_argument (of <> "sample_time is negative, infinite or NaN."))
      else if d.le cutoff_frequency nought || not (d.is_finite cutoff_frequency)
      then raise (invalid_argument (of <> "cutoff_frequency is zero, negative, infinite or NaN."))
      else if not finite
      then raise (
          invalid_argument
            (of <> "current or past input value of the signal to be filtered is infinite or NaN."))
      else ok value

  -- `lowpassFilter`
  unfoldable pub lowpass_filter :
      (sample_time y y_last cutoff_frequency : F) → Result (Exception F) F
  lowpass_filter sample_time y y_last cutoff_frequency =
      let k = gain sample_time cutoff_frequency in
      checked_filter "lowpass-filter: " sample_time cutoff_frequency
        (d.is_finite y && d.is_finite y_last) (d.add (d.mul k y) (d.mul (d.sub unit k) y_last))

  -- The loop over the elements of a command.
  unfoldable pub lowpass_all :
      {n : ℕ} → (sample_time : F) → Array F n → Array F n → F → Result (Exception F) (Array F n)
  unfolding lowpass_filter
  lowpass_all sample_time nil nil cutoff_frequency = ok nil
  lowpass_all sample_time (y ▸ ys) (z ▸ zs) cutoff_frequency =
      cons_result (lowpass_filter sample_time y z cutoff_frequency)
        (lowpass_all sample_time ys zs cutoff_frequency)

  -- `cartesianLowpassFilter`
  unfoldable pub cartesian_lowpass_filter :
      ⦃g : Geometry F⦄
      → (sample_time : F) → (y y_last : Array F 16) → (cutoff_frequency : F)
      → Result (Exception F) (Array F 16)
  cartesian_lowpass_filter ⦃g⦄ sample_time y y_last cutoff_frequency =
      let k = gain sample_time cutoff_frequency in
      checked_filter "Cartesian lowpass-filter: " sample_time cutoff_frequency
        (all_of d.is_finite y && all_of d.is_finite y_last)
        (g.place y
          (g.to_rotation_matrix (
            g.normalized
              (g.slerp k (g.quaternion (g.rotation y_last)) (g.quaternion (g.rotation y)))))
          (g.vec_add (g.vec_scale (g.translation y) k)
            (g.vec_scale (g.translation y_last) (d.sub unit k))))
