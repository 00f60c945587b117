-- ===== src/Tests/Limits.antt =====
-- Runs of the limiters, over the counting numbers.
use libfranka.Prelude.{◌+◌, ◌*◌, ◌⊎◌, ℕ, ◌≡◌, refl, true, Array, ok, ltb, leb, arith, filled, false}
use libfranka.RateLimiting.{k_delta_t, limit_torques, limit_velocity}
use libfranka.RateLimiting.Bounds.{IsOrder, IsTransitive, IsLimited, limit_torques-IsLimited}
use libfranka.RateLimiting.Velocities.{braking, jerk_of, IsOutside, limit_velocity-bounded}
use libfranka.Tests.Script.{count_double}

leb_of_not_ltb : (a b : ℕ) → ltb a b ≡ false → leb b a ≡ true
leb_of_not_ltb a b h = ground arith

leb_refl : (a : ℕ) → leb a a ≡ true
leb_refl a = ground arith

counts-IsOrder : IsOrder count_double (λ _. Unit)
counts-IsOrder = record {
  reflexive = λ a _. leb_refl a;
  le_of_not_lt = λ a b _ _. leb_of_not_ltb a b;
}

counts-IsTransitive : IsTransitive count_double
counts-IsTransitive = record {
  transitive = λ a b c p q. leb_trans a b c p q;
  le_of_lt = λ a b p. leb_of_ltb a b p;
}
  where
    leb_trans : (a b c : ℕ) → leb a b ≡ true → leb b c ≡ true → leb a c ≡ true
    leb_trans a b c p q = ground arith

    leb_of_ltb : (a b : ℕ) → ltb a b ≡ true → leb a b ≡ true
    leb_of_ltb a b p = ground arith

limit_velocity-bounded_example :
    (a j : ℕ) × (limit_velocity 9 2 5 4 7 3 1 ≡ ok (3 + a * k_delta_t))
    × (leb a 5 ≡ true)
    × (leb 0 a ≡ true)
    × (leb a (braking 4 5 9 3) ≡ true)
    × (leb (braking 4 5 2 3) a ≡ true)
    × (leb j 4 ≡ true)
    × (leb 0 j ≡ true)
    × ((j ≡ jerk_of 7 3 1) ⊎ ((ltb 4 (jerk_of 7 3 1) ≡ true) ⊎ (ltb (jerk_of 7 3 1) 0 ≡ true)))
    × ((a ≡ 1 + j * k_delta_t)
        ⊎ IsOutside (braking 4 5 9 3) 5 (braking 4 5 2 3) (1 + j * k_delta_t))
limit_velocity-bounded_example =
    limit_velocity-bounded (λ _. Unit) counts-IsOrder counts-IsTransitive 9 2 5 4 7 3 1 refl tt tt
      tt tt tt tt tt tt refl refl refl refl refl

limit_torques-IsLimited_example :
    (v : Array ℕ 7) × (limit_torques (filled 2 7) (filled 9 7) (filled 4 7) ≡ ok v)
    × IsLimited (filled 2 7) (filled 4 7) v
limit_torques-IsLimited_example =
    limit_torques-IsLimited (λ _. Unit) counts-IsOrder (filled 2 7) (filled 9 7) (filled 4 7) refl
      (one, (one, (one, (one, (one, (one, (one, tt)))))))
  where
    one : Unit {0} × Unit {0} × Unit {0} × (leb 0 2 ≡ true)
    one = (tt, tt, tt, refl)
