-- ===== src/ControlLoop/Ending.antt =====
-- Computations that come to an end: a value or an exception.
use libfranka.Prelude.{
  ℕ, ◌≢◌, refl, Bool, true, false, Array, ◌▸◌, Result, ok, raise, running, bind, if◌then◌else◌,
}
use libfranka.RateLimiting.{cons_result}
use libfranka.ControlLoop.Convert.{apply_if}

module _ {E : Type 0} where
  -- A computation that is not stuck in a loop.
  abbrev pub Total : {A : Type 0} → Result E A → Type 0
  Total r = r ≢ running

  pub Total-ok : {A : Type 0} (a : A) → Total (ok a)
  Total-ok a h = absurd (cc)

  pub Total-raise : {A : Type 0} (x : E) → Total {A = A} (raise x)
  Total-raise x h = absurd (cc)

  pub Total-if :
      {A : Type 0} (b : Bool) (r t : Result E A) → Total r → Total t → Total (if b then r else t)
  Total-if true r t h k = h
  Total-if false r t h k = k

  pub Total-bind :
      {A B : Type 0} (r : Result E A) (f : A → Result E B)
      → Total r
      → ((a : A) → Total (f a))
      → Total (bind r f)
  Total-bind (ok a) f h k = k a
  Total-bind (raise x) f h k = Total-raise x
  Total-bind running f h k = absurd (h refl)

  pub Total-apply_if :
      {A : Type 0} (b : Bool) (f : A → Result E A) (a : A)
      → ((x : A) → Total (f x))
      → Total (apply_if b f a)
  Total-apply_if true f a h = h a
  Total-apply_if false f a h = Total-ok a

  pub Total-cons_result :
      {A : Type 0} {n : ℕ} (r : Result E A) (t : Result E (Array A n))
      → Total r
      → Total t
      → Total (cons_result r t)
  Total-cons_result (ok a) (ok v) h k = Total-ok (a ▸ v)
  Total-cons_result (ok a) (raise x) h k = Total-raise x
  Total-cons_result (ok a) running h k = absurd (k refl)
  Total-cons_result (raise x) t h k = Total-raise x
  Total-cons_result running t h k = absurd (h refl)
