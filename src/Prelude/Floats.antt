-- ===== src/Prelude/Floats.antt =====
-- What the code does with a `double`: the arithmetic of the compiler and the functions of <cmath> are
-- parameters, since neither is part of the repository.
use Prim.Native.Nat.{ℕ}
use mathlib.Core.Bool.{Bool}

pub record Double (F : Type 0) : Type 0 where
  -- The literal `m * 10 ^ -e`, rounded as the compiler rounds it.
  pub literal : ℕ → ℕ → F
  pub add : F → F → F
  pub sub : F → F → F
  pub mul : F → F → F
  pub div : F → F → F
  pub neg : F → F
  pub abs : F → F
  pub sqrt : F → F
  pub lt : F → F → Bool
  pub le : F → F → Bool
  pub eq : F → F → Bool
  pub is_finite : F → Bool
  pub m_pi : F
  pub pow : F → F → F
  pub sin : F → F
  pub cos : F → F

module _ {F : Type 0} ⦃d : Double F⦄ where
  abbrev pub nought : F
  nought = d.literal 0 0

  abbrev pub unit : F
  unit = d.literal 1 0
