-- ===== src/Prelude/Effects.antt =====
-- Exceptions as values. A loop that has used up its fuel is `running`, which is neither a result nor
-- an exception.
use mathlib.Core.Bool.{Bool, true, false}
use mathlib.Core.Path.{◌≡◌, refl, ap}
use libfranka.Prelude.Tests.{if◌then◌else◌}

pub data Result {ℓ κ} (E : Type ℓ) (A : Type κ) : Type (ℓ ⊔ κ) where
  ok : A → Result E A
  raise : E → Result E A
  running : Result E A

module _ {E A B : Type 0} where
  -- What follows a computation that reads and writes nothing.
  abbrev pub bind : Result E A → (A → Result E B) → Result E B
  bind (ok a) f = f a
  bind (raise e) f = raise e
  bind running f = running

  -- Inversion of a chain that succeeded.
  pub bind-ok :
      (r : Result E A) (f : A → Result E B) {b : B}
      → bind r f ≡ ok b
      → (a : A) × (r ≡ ok a) × (f a ≡ ok b)
  bind-ok (ok a) f h = (a, refl, h)
  bind-ok (raise e) f h = absurd (cc)
  bind-ok running f h = absurd (cc)

pub ok_injective : {E A : Type 0} {x y : A} → ◌≡◌ {A = Result E A} (ok x) (ok y) → x ≡ y
ok_injective e = cc

-- A method of an object: the object is left as it was changed up to the exception.
abbrev pub Method : Type 0 → Type 0 → Type 0 → Type 0
Method E S A = S → Result E A × S

module _ {E S : Type 0} where
  abbrev pub pure : {A : Type 0} → A → Method E S A
  pure a s = (ok a, s)

  abbrev pub throw : {A : Type 0} → E → Method E S A
  throw e s = (raise e, s)

  abbrev pub diverge : {A : Type 0} → Method E S A
  diverge s = (running, s)

  -- What follows a call: the rest runs on its result, and an exception leaves at once.
  abbrev pub after : {A B : Type 0} → Result E A → S → (A → Method E S B) → Result E B × S
  after (ok a) s f = f a s
  after (raise e) s f = (raise e, s)
  after running s f = (running, s)

  infixl 5 ◌>>=◌ ◌>>◌
  abbrev pub ◌>>=◌ : {A B : Type 0} → Method E S A → (A → Method E S B) → Method E S B
  ◌>>=◌ m f s = after (m s).0 (m s).1 f

  abbrev pub ◌>>◌ : {B : Type 0} → Method E S (Unit {0}) → Method E S B → Method E S B
  m >> k = m >>= λ _. k

  abbrev pub get : Method E S S
  get s = (ok s, s)

  abbrev pub modify : (S → S) → Method E S (Unit {0})
  modify f s = (ok tt, f s)

  -- `if (b) { throw e; }`
  abbrev pub throw_if : Bool → E → Method E S (Unit {0})
  throw_if true e = throw e
  throw_if false e = pure tt

  -- Inversion of a chain that returned: with `m s` for `r` the premise reads `(m >>= f) s ≡ (ok b, t)`.
  pub after-eq-ok :
      {A B : Type 0} (r : Result E A × S) (f : A → Method E S B) {b : B} {t : S}
      → after r.0 r.1 f ≡ (ok b, t)
      → (a : A) × (r.0 ≡ ok a) × (f a r.1 ≡ (ok b, t))
  after-eq-ok (ok a, u) f h = (a, refl, h)
  after-eq-ok (raise e, u) f h = cc
  after-eq-ok (running, u) f h = cc

  pub eq_of_fst : {A : Type 0} (r : Result E A × S) {a : A} → r.0 ≡ ok a → r ≡ (ok a, r.1)
  eq_of_fst r e = ap (λ x. (x, r.1)) e

  -- A chain whose first call returned.
  pub after-step :
      {A B : Type 0} {r : Result E A} {a : A} (u : S) (f : A → Method E S B)
      → r ≡ ok a
      → after r u f ≡ f a u
  after-step u f e = ap (λ x. after x u f) e

  pub after-run :
      {A B : Type 0} (r : Result E A × S) {a : A} {u : S} (f : A → Method E S B)
      → r ≡ (ok a, u)
      → after r.0 r.1 f ≡ f a u
  after-run r f e = ap (λ x. after x.0 x.1 f) e

  -- What a call and what follows it both keep, whatever the outcome.
  pub after-keeps :
      {A B : Type 0} (P : S → Type 0) (r : Result E A × S) (f : A → Method E S B)
      → P r.1
      → ((a : A) → P (f a r.1).1)
      → P (after r.0 r.1 f).1
  after-keeps P (ok a, u) f h k = k a
  after-keeps P (raise e, u) f h k = h
  after-keeps P (running, u) f h k = h

  -- What follows a guard that let through.
  pub throw_if-ok :
      {B : Type 0} (b : Bool) (e : E) (k : Method E S B) (s : S) {a : B} {t : S}
      → (throw_if b e >> k) s ≡ (ok a, t)
      → (b ≡ false) × (k s ≡ (ok a, t))
  throw_if-ok true e k s h = absurd (cc)
  throw_if-ok false e k s h = (refl, h)

  -- The branch that a condition takes.
  pub branch_true :
      {B : Type 0} (b : Bool) (x y : Method E S B) (s : S) {r : Result E B × S}
      → b ≡ true
      → (if b then x else y) s ≡ r
      → x s ≡ r
  branch_true true x y s p h = h
  branch_true false x y s p h = absurd (cc)

  pub branch_false :
      {B : Type 0} (b : Bool) (x y : Method E S B) (s : S) {r : Result E B × S}
      → b ≡ false
      → (if b then x else y) s ≡ r
      → y s ≡ r
  branch_false true x y s p h = absurd (cc)
  branch_false false x y s p h = h
