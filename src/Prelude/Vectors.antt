-- ===== src/Prelude/Vectors.antt =====
-- `std::array<A, n>`: a list of static length, and the loops over one index that the code writes.
use Prim.Native.Nat.{ℕ, zero, suc}
use mathlib.Core.Bool.{Bool, true, ◌&&◌}
use mathlib.Core.List.{List, [], ◌∷◌}

infixr 67 ◌▸◌
pub data Array {ℓ} (A : Type ℓ) : ℕ → Type ℓ where
  nil : Array A zero
  ◌▸◌ : {n : ℕ} → A → Array A n → Array A (suc n)

module _ {ℓ} {A : Type ℓ} where
  -- `std::array<A, n>{}` with every element value-initialised.
  abbrev pub filled : A → (n : ℕ) → Array A n
  filled a zero = nil
  filled a (suc n) = a ▸ filled a n

  abbrev pub to_list : {n : ℕ} → Array A n → List A
  to_list nil = []
  to_list (a ▸ v) = a ∷ to_list v

  -- `std::all_of`
  abbrev pub all_of : {n : ℕ} → (A → Bool) → Array A n → Bool
  all_of p nil = true
  all_of p (a ▸ v) = p a && all_of p v

module _ {ℓ κ μ} {A : Type ℓ} {B : Type κ} {C : Type μ} where
  abbrev pub zip_with : {n : ℕ} → (A → B → C) → Array A n → Array B n → Array C n
  zip_with f nil w = nil
  zip_with f (a ▸ v) (b ▸ w) = f a b ▸ zip_with f v w
