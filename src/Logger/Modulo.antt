-- ===== src/Logger/Modulo.antt =====
-- Remainders that an index of the ring takes.
use native.Mathlib.Nat.{mod-lt, mod-add-mod, mod-eq-sub-mod, add-mod_left, mod-eq_of_lt}
use libfranka.Prelude.{ℕ, ◌+◌, ◌-◌, ◌%◌, ◌≤◌, ◌<◌, ◌≡◌, ◌≢◌, ◌∙◌, sym, ap, arith}

mod_moves : (r d cap : ℕ) → r < cap → 0 < d → d < cap → (r + d) % cap ≢ r
mod_moves r d cap a b c = grind arith

-- Two indices less than a turn apart have different slots.
pub mod_separates : (k n cap : ℕ) → k < n → n < k + cap → k % cap ≢ n % cap
mod_separates k n cap h t e =
    let split : k + (n - k) ≡ n = omega arith in
    mod_moves (k % cap) (n - k) cap (mod-lt k (omega arith)) (omega arith) (omega arith)
      (mod-add-mod k cap (n - k) ∙ ap (λ x. x % cap) split ∙ sym e)

pub mod_one_turn : (n cap i : ℕ) → cap ≤ n → (n % cap + i) % cap ≡ (n - cap + i) % cap
mod_one_turn n cap i h =
    let turned : cap ≤ n + i = omega arith in
    let regroup : n + i - cap ≡ n - cap + i = omega arith in
    mod-add-mod n cap i ∙ mod-eq-sub-mod turned ∙ ap (λ x. x % cap) regroup

pub mod_next : (n cap : ℕ) → (n % cap + 1) % cap ≡ (n + 1) % cap
mod_next n cap = mod-add-mod n cap 1

-- Before the ring is full its front is its size.
pub mod_unfilled : (n cap i : ℕ) → n < cap → i < n → (n % cap + i) % n ≡ i
mod_unfilled n cap i h t = rw (mod-eq_of_lt h) (add-mod_left n i ∙ mod-eq_of_lt t)
