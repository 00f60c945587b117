-- ===== src/RateLimiting/Bounds.antt =====
-- What the limiters guarantee where the comparisons of `double` form an order.
use libfranka.Prelude.{
  ℕ, ◌≡◌, refl, ap, raise, Bool, true, false, Array, nil, ◌▸◌, all_of, Double, ok, if◌then◌else◌,
}
use libfranka.Exceptions.{invalid_argument}
use libfranka.RateLimiting.Limits.{k_delta_t}
use libfranka.RateLimiting.Joints.{clamp, min_of, max_of, limit_torques_from, limit_torques}

-- The comparisons of numbers, as IEEE 754 has them: `IsNumber` holds of every value that is not NaN.
pub record IsOrder {F : Type 0} (d : Double F) (IsNumber : F → Type 0) : Type 0 where
  pub reflexive : (a : F) → IsNumber a → d.le a a ≡ true
  pub le_of_not_lt : (a b : F) → IsNumber a → IsNumber b → d.lt a b ≡ false → d.le b a ≡ true

-- The comparisons put together, as IEEE 754 has them for all values.
pub record IsTransitive {F : Type 0} (d : Double F) : Type 0 where
  pub transitive : (a b c : F) → d.le a b ≡ true → d.le b c ≡ true → d.le a c ≡ true
  pub le_of_lt : (a b : F) → d.lt a b ≡ true → d.le a b ≡ true

module _ {F : Type 0} ⦃d : Double F⦄ where
  -- Each element of the last array is that of the second and one cycle of a rate within the limit.
  abbrev pub IsLimited : {n : ℕ} → Array F n → Array F n → Array F n → Type 0
  IsLimited nil nil nil = Unit
  IsLimited (m ▸ ms) (l ▸ ls) (x ▸ xs) =
      ((a : F) × (x ≡ d.add l (d.mul a k_delta_t)) × (d.le (d.neg m) a ≡ true) × (d.le a m ≡ true))
      × IsLimited ms ls xs

  -- For each limit, command and last command: the rate and the limits are numbers, the limits in order.
  abbrev pub AreNumbers : (F → Type 0) → {n : ℕ} → Array F n → Array F n → Array F n → Type 0
  AreNumbers IsNumber nil nil nil = Unit
  AreNumbers IsNumber (m ▸ ms) (c ▸ cs) (l ▸ ls) =
      (IsNumber (d.div (d.sub c l) k_delta_t)
        × IsNumber m
        × IsNumber (d.neg m)
        × (d.le (d.neg m) m ≡ true))
      × AreNumbers IsNumber ms cs ls

module _ {F : Type 0} ⦃d : Double F⦄ (IsNumber : F → Type 0) (order : IsOrder d IsNumber) where
  le-min_of :
      (x high : F)
      → IsNumber x
      → IsNumber high
      → IsNumber (min_of x high) × (d.le (min_of x high) high ≡ true)
  le-min_of x high p q = go (d.lt high x) refl
    where
      go :
          (b : Bool)
          → d.lt high x ≡ b
          → IsNumber (if b then high else x) × (d.le (if b then high else x) high ≡ true)
      go true e = (q, order.reflexive high q)
      go false e = (p, order.le_of_not_lt high x q p e)

  le-max_of :
      (x high low : F)
      → IsNumber x
      → IsNumber low
      → d.le low high ≡ true
      → d.le x high ≡ true
      → (d.le low (max_of x low) ≡ true) × (d.le (max_of x low) high ≡ true)
  le-max_of x high low p r h k = go (d.lt x low) refl
    where
      go :
          (b : Bool)
          → d.lt x low ≡ b
          → (d.le low (if b then low else x) ≡ true) × (d.le (if b then low else x) high ≡ true)
      go true e = (order.reflexive low r, h)
      go false e = (order.le_of_not_lt x low p r e, k)

  pub le-clamp :
      (x high low : F)
      → IsNumber x
      → IsNumber high
      → IsNumber low
      → d.le low high ≡ true
      → (d.le low (clamp x high low) ≡ true) × (d.le (clamp x high low) high ≡ true)
  le-clamp x high low p q r h =
      let (number, below) = le-min_of x high p q in
      le-max_of (min_of x high) high low number r h below

  limit_torques_from-IsLimited :
      {n : ℕ} (ms cs ls : Array F n)
      → AreNumbers IsNumber ms cs ls
      → IsLimited ms ls (limit_torques_from ms cs ls)
  unfolding limit_torques_from
  limit_torques_from-IsLimited nil nil nil h = tt
  limit_torques_from-IsLimited (m ▸ ms) (c ▸ cs) (l ▸ ls) ((p, q, r, k), h) =
      let rate = d.div (d.sub c l) k_delta_t in
      let (above, below) = le-clamp rate m (d.neg m) p q r k in
      ((clamp rate m (d.neg m), refl, above, below), limit_torques_from-IsLimited ms cs ls h)

  -- Finite torques are answered with torques each of which is the last one and one cycle of a rate
  -- between the limit's negation and the limit, if the rates and the limits are numbers and each
  -- limit's negation is not above it.
  pub limit_torques-IsLimited :
      (ms cs ls : Array F 7)
      → all_of d.is_finite cs ≡ true
      → AreNumbers IsNumber ms cs ls
      → (v : Array F 7) × (limit_torques ms cs ls ≡ ok v) × IsLimited ms ls v
  unfolding limit_torques
  limit_torques-IsLimited ms cs ls finite h = (
    limit_torques_from ms cs ls,
    ap
        (λ (b : Bool).
          if b
          then ok (limit_torques_from ms cs ls)
          else raise (invalid_argument "Commanding value is infinite or NaN."))
        finite,
    limit_torques_from-IsLimited ms cs ls h,
  )
