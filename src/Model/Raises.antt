-- ===== src/Model/Raises.antt =====
-- Which exceptions a method throws, where the code says it call by call.
use libfranka.Prelude.{
  Bool, true, false, Result, ok, raise, running, Method, throw_if, after, ◌>>=◌,
}

-- An exception satisfies a predicate.
abbrev pub Raises : {E A : Type 0} → (E → Type 0) → Result E A → Type 0
Raises P (ok a) = Unit
Raises P (raise e) = P e
Raises P running = Unit

-- Every exception of a method satisfies a predicate.
pub record Throws {E S A : Type 0} (P : E → Type 0) (m : Method E S A) : Type 0 where
  pub only : (s : S) → Raises P (m s).0

pub after-Raises :
    {E S A B : Type 0} (P : E → Type 0) (r : Result E A) (s : S) (f : A → Method E S B)
    → Raises P r
    → ((a : A) → Raises P (f a s).0)
    → Raises P (after r s f).0
after-Raises P (ok a) s f p q = q a
after-Raises P (raise e) s f p q = p
after-Raises P running s f p q = tt

pub weaken :
    {E A : Type 0} (P Q : E → Type 0) (r : Result E A)
    → ((e : E) → P e → Q e)
    → Raises P r
    → Raises Q r
weaken P Q (ok a) h p = tt
weaken P Q (raise e) h p = h e p
weaken P Q running h p = tt

module _ {E S : Type 0} (P : E → Type 0) where
  infixr 20 ◌⊳◌
  pub ◌⊳◌ :
      {A B : Type 0} {m : Method E S A} {f : A → Method E S B}
      → Throws P m
      → ((a : A) → Throws P (f a))
      → Throws P (m >>= f)
  ◌⊳◌ {m = m} {f = f} p q = record {
    only = λ s. after-Raises P (m s).0 (m s).1 f (p.only s) λ a. (q a).only (m s).1;
  }

  pub throw_if-Throws : (b : Bool) (e : E) → P e → Throws {S = S} P (throw_if b e)
  throw_if-Throws true e p = record { only = λ s. p }
  throw_if-Throws false e p = record { only = λ s. tt }
