-- ===== src/Duration/Arithmetic.antt =====
-- The arithmetic of `Duration` undoes itself.
use native.Mathlib.Nat.{mod-lt}
use libfranka.Prelude.{
  ℕ, ◌+◌, ◌*◌, ◌/◌, ◌%◌, ◌<◌, ◌^◌, ◌≡◌, ◌≢◌, ◌↔◌, refl, some, true, false, arith, ap, ◌==◌, not,
}
use libfranka.Duration.{Duration, add, sub, div, rem, lt, le, gt, ge, eq, ne}

-- The count fits into a `uint64_t`.
abbrev pub Fits : Duration → Type 0
Fits a = a.count < 2 ^ 64

duration_ext : (a b : Duration) → a.count ≡ b.count → a ≡ b
duration_ext a b p = ap (λ n. record { count = n }) p

-- Subtraction undoes addition and addition undoes subtraction, also where the `uint64_t` wraps around.
pub add-sub : (a b : Duration) → Fits a → Fits b → (sub (add a b) b ≡ a) × (add (sub a b) b ≡ a)
unfolding add sub
add-sub a b h k = (duration_ext _ a (omega arith), duration_ext _ a (omega arith))

-- Division and remainder by a duration that is not zero have a value, and give the count back: the
-- quotient times the divisor plus the remainder, which is less than the divisor.
pub div-rem :
    (a b : Duration)
    → b.count ≢ 0
    → (q : ℕ) × (r : Duration) × (div a b ≡ some q)
      × (rem a b ≡ some r)
      × (a.count ≡ q * b.count + r.count)
      × (r.count < b.count)
unfolding div rem
div-rem a b h =
    let nonzero : (b.count == 0) ≡ false = ground arith in
    (
      a.count / b.count,
      record { count = a.count % b.count },
      rw nonzero,
      rw nonzero,
      grind arith,
      mod-lt a.count (omega arith),
    )

-- `<`, `>` and `==` hold exactly where the counts are so ordered, and `>=`, `<=` and `!=` are their
-- negations.
pub comparisons_agree :
    (a b : Duration)
    → ((lt a b ≡ true) ↔ (a.count < b.count))
      × ((gt a b ≡ true) ↔ (b.count < a.count))
      × ((eq a b ≡ true) ↔ (a ≡ b))
      × (ge a b ≡ not (lt a b))
      × (le a b ≡ not (gt a b))
      × (ne a b ≡ not (eq a b))
unfolding lt le gt ge eq ne
comparisons_agree a b = (
  ground arith,
  ground arith,
  (
    (λ p. duration_ext a b (ground arith)),
    (λ p. let q = ap (λ (x : Duration). x.count) p in ground arith),
  ),
  ground arith,
  ground arith,
  refl,
)
