-- ===== src/RateLimiting/Velocities.antt =====
-- The limits that `limitRate` keeps for one velocity.
use libfranka.Prelude.{◌≡◌, ◌⊎◌, inl, inr, refl, Bool, true, false, Double, ok, if◌then◌else◌}
use mathlib.Core.Path.{subst}
use libfranka.RateLimiting.Limits.{k_delta_t}
use libfranka.RateLimiting.Joints.{
  clamp, min_of, max_of, limit_velocity, limited_acceleration, safe_max_acceleration,
  safe_min_acceleration,
}
use libfranka.RateLimiting.Bounds.{IsOrder, IsTransitive, le-clamp}

module _ {F : Type 0} ⦃d : Double F⦄ where
  -- The acceleration at which a velocity comes to rest at a limit under the jerk.
  abbrev pub braking : (max_jerk max_acceleration limit velocity : F) → F
  braking max_jerk max_acceleration limit velocity =
      d.mul (d.div max_jerk max_acceleration) (d.sub limit velocity)

  -- The jerk of a commanded velocity.
  abbrev pub jerk_of : (commanded last_velocity last_acceleration : F) → F
  jerk_of commanded last_velocity last_acceleration =
      d.div (d.sub (d.div (d.sub commanded last_velocity) k_delta_t) last_acceleration) k_delta_t

  -- `x` is outside of the bounds of an acceleration.
  abbrev pub IsOutside : (up max_acceleration down x : F) → Type 0
  IsOutside up max_acceleration down x =
      (d.lt max_acceleration x ≡ true)
      ⊎ ((d.lt up x ≡ true) ⊎ ((d.lt x (d.neg max_acceleration) ≡ true) ⊎ (d.lt x down ≡ true)))

module _ {F : Type 0} ⦃d : Double F⦄ (IsNumber : F → Type 0) (order : IsOrder d IsNumber)
    (laws : IsTransitive d) where
  min_of-least :
      (x y : F)
      → IsNumber x
      → IsNumber y
      → IsNumber (min_of x y)
        × (d.le (min_of x y) x ≡ true)
        × (d.le (min_of x y) y ≡ true)
        × ((min_of x y ≡ x) ⊎ (min_of x y ≡ y))
  min_of-least x y p q = go (d.lt y x) refl
    where
      go :
          (b : Bool)
          → d.lt y x ≡ b
          → IsNumber (if b then y else x)
            × (d.le (if b then y else x) x ≡ true)
            × (d.le (if b then y else x) y ≡ true)
            × (((if b then y else x) ≡ x) ⊎ ((if b then y else x) ≡ y))
      go true e = (q, laws.le_of_lt y x e, order.reflexive y q, inr refl)
      go false e = (p, order.reflexive x p, order.le_of_not_lt y x q p e, inl refl)

  max_of-greatest :
      (x y : F)
      → IsNumber x
      → IsNumber y
      → IsNumber (max_of x y)
        × (d.le x (max_of x y) ≡ true)
        × (d.le y (max_of x y) ≡ true)
        × ((max_of x y ≡ x) ⊎ (max_of x y ≡ y))
  max_of-greatest x y p q = go (d.lt x y) refl
    where
      go :
          (b : Bool)
          → d.lt x y ≡ b
          → IsNumber (if b then y else x)
            × (d.le x (if b then y else x) ≡ true)
            × (d.le y (if b then y else x) ≡ true)
            × (((if b then y else x) ≡ x) ⊎ ((if b then y else x) ≡ y))
      go true e = (q, laws.le_of_lt x y e, order.reflexive y q, inr refl)
      go false e = (p, order.reflexive x p, order.le_of_not_lt x y p q e, inl refl)

-- A clamped number is itself unless a bound cuts it off.
clamped :
    {F : Type 0} ⦃d : Double F⦄ (x high low : F)
    → (clamp x high low ≡ x) ⊎ ((d.lt high x ≡ true) ⊎ (d.lt x low ≡ true))
clamped ⦃d⦄ x high low = go (d.lt high x) refl
  where
    inner :
        (b : Bool)
        → d.lt x low ≡ b
        → ((if b then low else x) ≡ x) ⊎ ((d.lt high x ≡ true) ⊎ (d.lt x low ≡ true))
    inner true e = inr (inr e)
    inner false e = inl refl

    go :
        (b : Bool)
        → d.lt high x ≡ b
        → (max_of (if b then high else x) low ≡ x) ⊎ ((d.lt high x ≡ true) ⊎ (d.lt x low ≡ true))
    go true e = inr (inl e)
    go false e = inner (d.lt x low) refl

module _ {F : Type 0} ⦃d : Double F⦄ (IsNumber : F → Type 0) (order : IsOrder d IsNumber)
    (laws : IsTransitive d) where
  -- A finite velocity command is answered with the last velocity and one cycle of an acceleration `a`. It
  -- is neither above the acceleration limit nor below its negation, and not outside the accelerations at
  -- which the velocity comes to rest at its two limits under the jerk limit. It is the last acceleration
  -- and one cycle of a jerk within the jerk limit, the commanded jerk or a limit that this is beyond,
  -- unless this acceleration is outside these bounds. The comparisons are those of an order on numbers,
  -- the limits, the commanded jerk and the acceleration of the limited jerk are numbers, and the lower
  -- bounds are not above the upper ones.
  pub limit_velocity-bounded :
      (upper lower max_acceleration max_jerk commanded last_velocity last_acceleration : F)
      → d.is_finite commanded ≡ true
      → IsNumber max_acceleration
      → IsNumber (d.neg max_acceleration)
      → IsNumber max_jerk
      → IsNumber (d.neg max_jerk)
      → IsNumber (jerk_of commanded last_velocity last_acceleration)
      → IsNumber (braking max_jerk max_acceleration upper last_velocity)
      → IsNumber (braking max_jerk max_acceleration lower last_velocity)
      → IsNumber (limited_acceleration max_jerk commanded last_velocity last_acceleration)
      → d.le (d.neg max_jerk) max_jerk ≡ true
      → d.le (d.neg max_acceleration) max_acceleration ≡ true
      → d.le (d.neg max_acceleration) (braking max_jerk max_acceleration upper last_velocity) ≡ true
      → d.le (braking max_jerk max_acceleration lower last_velocity) max_acceleration ≡ true
      → d.le
          (braking max_jerk max_acceleration lower last_velocity)
          (braking max_jerk max_acceleration upper last_velocity)
        ≡ true
      → (a j : F) × (limit_velocity upper lower max_acceleration max_jerk commanded last_velocity
            last_acceleration
          ≡ ok (d.add last_velocity (d.mul a k_delta_t)))
        × (d.le a max_acceleration ≡ true)
        × (d.le (d.neg max_acceleration) a ≡ true)
        × (d.le a (braking max_jerk max_acceleration upper last_velocity) ≡ true)
        × (d.le (braking max_jerk max_acceleration lower last_velocity) a ≡ true)
        × (d.le j max_jerk ≡ true)
        × (d.le (d.neg max_jerk) j ≡ true)
        × ((j ≡ jerk_of commanded last_velocity last_acceleration)
            ⊎ ((d.lt max_jerk (jerk_of commanded last_velocity last_acceleration) ≡ true)
                ⊎ (d.lt (jerk_of commanded last_velocity last_acceleration) (d.neg max_jerk)
                    ≡ true)))
        × ((a ≡ d.add last_acceleration (d.mul j k_delta_t))
            ⊎ IsOutside
                (braking max_jerk max_acceleration upper last_velocity)
                max_acceleration
                (braking max_jerk max_acceleration lower last_velocity)
                (d.add last_acceleration (d.mul j k_delta_t)))
  unfolding limit_velocity
  limit_velocity-bounded upper lower m jerk commanded v w finite n₁ n₂ n₃ n₄ n₅ n₆ n₇ n₈ o₁ o₂ o₃ o₄
        o₅ =
      let up = braking jerk m upper v in
      let down = braking jerk m lower v in
      let x = limited_acceleration jerk commanded v w in
      let high = safe_max_acceleration upper m jerk v in
      let low = safe_min_acceleration lower m jerk v in
      let (high_number, high_up, high_m, high_is) = min_of-least IsNumber order laws up m n₆ n₁ in
      let (low_number, down_low, m_low, low_is) =
        max_of-greatest IsNumber order laws down (d.neg m) n₇ n₂ in
      let sorted : d.le low high ≡ true = between low_is high_is in
      let (above, below) = le-clamp IsNumber order x high low n₈ high_number low_number sorted in
      let (jerk_above, jerk_below) =
        le-clamp IsNumber order (jerk_of commanded v w) jerk (d.neg jerk) n₅ n₃ n₄ o₁ in
      (
        clamp x high low,
        clamp (jerk_of commanded v w) jerk (d.neg jerk),
        rw finite,
        laws.transitive _ high m below high_m,
        laws.transitive (d.neg m) low _ m_low above,
        laws.transitive _ high up below high_up,
        laws.transitive down low _ down_low above,
        jerk_below,
        jerk_above,
        clamped (jerk_of commanded v w) jerk (d.neg jerk),
        cut (clamped x high low) high_is low_is,
      )
    where
      between :
          {high low : F}
          → (low ≡ braking jerk m lower v) ⊎ (low ≡ d.neg m)
          → (high ≡ braking jerk m upper v) ⊎ (high ≡ m)
          → d.le low high ≡ true
      between (inl p) (inl q) = rw (p, q) o₅
      between (inl p) (inr q) = rw (p, q) o₄
      between (inr p) (inl q) = rw (p, q) o₃
      between (inr p) (inr q) = rw (p, q) o₂

      cut :
          {a x high low : F}
          → (a ≡ x) ⊎ ((d.lt high x ≡ true) ⊎ (d.lt x low ≡ true))
          → (high ≡ braking jerk m upper v) ⊎ (high ≡ m)
          → (low ≡ braking jerk m lower v) ⊎ (low ≡ d.neg m)
          → (a ≡ x) ⊎ IsOutside (braking jerk m upper v) m (braking jerk m lower v) x
      cut (inl e) p q = inl e
      cut {x = x} (inr (inl e)) (inl p) q = inr (inr (inl (subst (λ h. d.lt h x ≡ true) p e)))
      cut {x = x} (inr (inl e)) (inr p) q = inr (inl (subst (λ h. d.lt h x ≡ true) p e))
      cut {x = x} (inr (inr e)) p (inl q) = inr (inr (inr (inr (subst (λ l. d.lt x l ≡ true) q e))))
      cut {x = x} (inr (inr e)) p (inr q) = inr (inr (inr (inl (subst (λ l. d.lt x l ≡ true) q e))))
