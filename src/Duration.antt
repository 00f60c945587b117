-- ===== src/Duration.antt =====
-- include/franka/duration.h and src/duration.cpp: a number of milliseconds in a `uint64_t`, which
-- wraps. A division or a remainder by zero has no value in C++, and is `none`.
pub mod Arithmetic
use libfranka.Prelude.{
  ℕ, ◌+◌, ◌-◌, ◌*◌, ◌/◌, ◌%◌, ◌^◌, Bool, not, Option, none, some, Double, ltb, leb, ◌==◌,
  if◌then◌else◌,
}

pub record Duration : Type 0 where
  pub count : ℕ  -- uint64_t, milliseconds

abbrev pub u64 : ℕ → ℕ
u64 n = n % 2 ^ 64

-- `Duration()`
abbrev pub default : Duration
default = record { count = 0 }

-- `Duration(uint64_t milliseconds)`
abbrev pub of_msec : ℕ → Duration
of_msec milliseconds = record { count = milliseconds }

abbrev pub to_msec : Duration → ℕ
to_msec t = t.count

-- `duration_cast<duration<double>>`: the count over one thousand.
pub to_sec : {F : Type 0} ⦃d : Double F⦄ → Duration → F
to_sec ⦃d⦄ t = d.div (d.literal t.count 0) (d.literal 1000 0)

unfoldable pub add : Duration → Duration → Duration
add a b = record { count = u64 (a.count + b.count) }

unfoldable pub sub : Duration → Duration → Duration
sub a b = record { count = u64 (a.count + 2 ^ 64 - b.count) }

unfoldable pub mul : Duration → ℕ → Duration
mul a n = record { count = u64 (a.count * n) }

-- `operator*(uint64_t, const Duration&)`
unfoldable pub mul_left : ℕ → Duration → Duration
unfolding mul
mul_left n a = mul a n

unfoldable pub div : Duration → Duration → Option ℕ
div a b = if b.count == 0 then none else some (a.count / b.count)

unfoldable pub div_count : Duration → ℕ → Option Duration
div_count a n = if n == 0 then none else some (record { count = a.count / n })

unfoldable pub rem : Duration → Duration → Option Duration
rem a b = if b.count == 0 then none else some (record { count = a.count % b.count })

unfoldable pub rem_count : Duration → ℕ → Option Duration
rem_count a n = if n == 0 then none else some (record { count = a.count % n })

unfoldable pub eq : Duration → Duration → Bool
eq a b = a.count == b.count

unfoldable pub ne : Duration → Duration → Bool
ne a b = not (a.count == b.count)

unfoldable pub lt : Duration → Duration → Bool
lt a b = ltb a.count b.count

unfoldable pub le : Duration → Duration → Bool
le a b = leb a.count b.count

unfoldable pub gt : Duration → Duration → Bool
gt a b = ltb b.count a.count

unfoldable pub ge : Duration → Duration → Bool
ge a b = leb b.count a.count
