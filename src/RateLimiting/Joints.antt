-- ===== src/RateLimiting/Joints.antt =====
-- src/rate_limiting.cpp: the limiters of torques, of joint velocities and of joint positions.
-- `std::min` and `std::max` are those of the standard library's documentation: the first argument
-- unless the second is less, or greater.
use libfranka.Prelude.{
  bind, ℕ, suc, Array, nil, ◌▸◌, all_of, Double, Result, ok, raise, running, if◌then◌else◌,
}
use libfranka.RateLimiting.Limits.{k_delta_t}
use libfranka.Exceptions.{Exception, invalid_argument}

-- An array from the result of its first element and the results of the others.
abbrev pub cons_result :
    {E A : Type 0} {n : ℕ} → Result E A → Result E (Array A n) → Result E (Array A (suc n))
cons_result (ok a) (ok v) = ok (a ▸ v)
cons_result (ok a) (raise e) = raise e
cons_result (ok a) running = running
cons_result (raise e) _ = raise e
cons_result running _ = running

module _ {F : Type 0} ⦃d : Double F⦄ where
  abbrev pub min_of : F → F → F
  min_of a b = if d.lt b a then b else a

  abbrev pub max_of : F → F → F
  max_of a b = if d.lt a b then b else a

  -- `std::max(std::min(x, high), low)`
  abbrev pub clamp : F → F → F → F
  clamp x high low = max_of (min_of x high) low

  -- The loop of the limiter of torques.
  unfoldable pub limit_torques_from : {n : ℕ} → Array F n → Array F n → Array F n → Array F n
  limit_torques_from nil nil nil = nil
  limit_torques_from (m ▸ ms) (c ▸ cs) (l ▸ ls) =
      d.add l (d.mul (clamp (d.div (d.sub c l) k_delta_t) m (d.neg m)) k_delta_t)
      ▸ limit_torques_from ms cs ls

  -- `limitRate` of three arrays.
  unfoldable pub limit_torques :
      Array F 7 → Array F 7 → Array F 7 → Result (Exception F) (Array F 7)
  limit_torques max_derivatives commanded_values last_commanded_values =
      if all_of d.is_finite commanded_values
      then ok (limit_torques_from max_derivatives commanded_values last_commanded_values)
      else raise (invalid_argument "Commanding value is infinite or NaN.")

  -- The acceleration that the jerk limit allows.
  abbrev pub limited_acceleration : (max_jerk commanded last_velocity last_acceleration : F) → F
  limited_acceleration max_jerk commanded last_velocity last_acceleration =
      d.add last_acceleration (
        d.mul
          (clamp
            (d.div (d.sub (d.div (d.sub commanded last_velocity) k_delta_t) last_acceleration)
              k_delta_t)
            max_jerk (d.neg max_jerk))
          k_delta_t)

  abbrev pub safe_max_acceleration : (upper max_acceleration max_jerk last_velocity : F) → F
  safe_max_acceleration upper max_acceleration max_jerk last_velocity =
      min_of (d.mul (d.div max_jerk max_acceleration) (d.sub upper last_velocity)) max_acceleration

  abbrev pub safe_min_acceleration : (lower max_acceleration max_jerk last_velocity : F) → F
  safe_min_acceleration lower max_acceleration max_jerk last_velocity =
      max_of (d.mul (d.div max_jerk max_acceleration) (d.sub lower last_velocity))
        (d.neg max_acceleration)

  -- `limitRate` of one velocity.
  unfoldable pub limit_velocity : F → F → F → F → F → F → F → Result (Exception F) F
  limit_velocity upper lower max_acceleration max_jerk commanded last_velocity last_acceleration =
      if d.is_finite commanded
      then ok (
          d.add last_velocity (
            d.mul
              (clamp (limited_acceleration max_jerk commanded last_velocity last_acceleration)
                (safe_max_acceleration upper max_acceleration max_jerk last_velocity)
                (safe_min_acceleration lower max_acceleration max_jerk last_velocity))
              k_delta_t))
      else raise (invalid_argument "commanded_velocity is infinite or NaN.")

  -- `limitRate` of one position.
  unfoldable pub limit_position : F → F → F → F → F → F → F → F → Result (Exception F) F
  limit_position upper lower max_acceleration max_jerk commanded last_position last_velocity
        last_acceleration =
      if d.is_finite commanded
      then (bind
          (limit_velocity upper lower max_acceleration max_jerk
            (d.div (d.sub commanded last_position) k_delta_t) last_velocity last_acceleration)
          λ v. ok (d.add last_position (d.mul v k_delta_t)))
      else raise (invalid_argument "commanded_position is infinite or NaN.")

  -- The loop of the limiter of joint velocities.
  unfoldable pub limit_velocities_from :
      {n : ℕ}
      → Array F n
      → Array F n
      → Array F n
      → Array F n
      → Array F n
      → Array F n
      → Array F n
      → Result (Exception F) (Array F n)
  limit_velocities_from nil nil nil nil nil nil nil = ok nil
  limit_velocities_from (u ▸ us) (l ▸ ls) (a ▸ accs) (j ▸ js) (c ▸ cs) (v ▸ vs) (w ▸ ws) =
      cons_result (limit_velocity u l a j c v w) (limit_velocities_from us ls accs js cs vs ws)

  -- `limitRate` of seven arrays.
  unfoldable pub limit_velocities :
      Array F 7
      → Array F 7
      → Array F 7
      → Array F 7
      → Array F 7
      → Array F 7
      → Array F 7
      → Result (Exception F) (Array F 7)
  limit_velocities us ls accs js cs vs ws =
      if all_of d.is_finite cs
      then limit_velocities_from us ls accs js cs vs ws
      else raise (invalid_argument "commanded_velocities is infinite or NaN.")

  -- The loop of the limiter of joint positions.
  unfoldable pub limit_positions_from :
      {n : ℕ}
      → Array F n
      → Array F n
      → Array F n
      → Array F n
      → Array F n
      → Array F n
      → Array F n
      → Array F n
      → Result (Exception F) (Array F n)
  limit_positions_from nil nil nil nil nil nil nil nil = ok nil
  limit_positions_from (u ▸ us) (l ▸ ls) (a ▸ accs) (j ▸ js) (c ▸ cs) (p ▸ ps) (v ▸ vs) (w ▸ ws) =
      cons_result (limit_position u l a j c p v w) (limit_positions_from us ls accs js cs ps vs ws)

  -- `limitRate` of eight arrays.
  unfoldable pub limit_positions :
      Array F 7
      → Array F 7
      → Array F 7
      → Array F 7
      → Array F 7
      → Array F 7
      → Array F 7
      → Array F 7
      → Result (Exception F) (Array F 7)
  limit_positions us ls accs js cs ps vs ws =
      if all_of d.is_finite cs
      then limit_positions_from us ls accs js cs ps vs ws
      else raise (invalid_argument "commanded_positions is infinite or NaN.")
