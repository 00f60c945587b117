-- ===== src/RobotApi/Counts.antt =====
-- The locks that own the control mutex, counted.
use libfranka.Prelude.{
  ℕ, ◌+◌, ◌≡◌, ◌≢◌, ◌∙◌, ◌↔◌, throw_if-ok, ◌⊎◌, inl, inr, refl, sym, ap, Bool, true, false, not,
  List, [], ◌∷◌, ◌++◌, length, Result, ok, raise, running, modify, arith,
}
use libfranka.Exceptions.{Exception}
use libfranka.ActiveControl.{ActiveControl}
use libfranka.ControlLoop.{Session}
use libfranka.RobotApi.Lock.{Robot, not_owned, try_to_lock, unlocked, unlocked_on_raise, set_mutex}
use libfranka.RobotApi.Owners.{Kept}
use libfranka.RobotApi.Steps.{World, mutex_after}

abbrev pub bit : Bool → ℕ
bit true = 1
bit false = 0

module _ {N F : Type 0} where
  abbrev pub owners : List (ActiveControl N F) → ℕ
  owners [] = 0
  owners (a ∷ xs) = bit a.owns_lock + owners xs

  -- The lock is let go when the control is finished, and not before.
  abbrev pub Holds : ActiveControl N F → Type 0
  Holds a = a.owns_lock ≡ not a.control_finished

  abbrev pub AllHold : List (ActiveControl N F) → Type 0
  AllHold [] = Unit
  AllHold (a ∷ xs) = Holds a × AllHold xs

  pub owners-insert :
      (a : ActiveControl N F) (xs ys : List (ActiveControl N F))
      → owners (xs ++ (a ∷ ys)) ≡ bit a.owns_lock + owners (xs ++ ys)
  owners-insert a [] ys = refl
  owners-insert a (x ∷ xs) ys = omega (arith, owners-insert a xs ys)

  -- One of a list, and the others.
  pub AllHold-insert :
      (a : ActiveControl N F) (xs ys : List (ActiveControl N F))
      → AllHold (xs ++ (a ∷ ys)) ↔ (Holds a × AllHold (xs ++ ys))
  AllHold-insert a [] ys = ((λ h. h), (λ h. h))
  AllHold-insert a (x ∷ xs) ys = (
    (λ h. (((AllHold-insert a xs ys).0 h.1).0, (h.0, ((AllHold-insert a xs ys).0 h.1).1))),
    (λ h. (h.1.0, (AllHold-insert a xs ys).1 (h.0, h.1.1))),
  )

  pub Holds-Kept : (a b : ActiveControl N F) → Holds a → Kept a b → Holds b
  Holds-Kept a b h (inl (p, q)) = p ∙ h ∙ ap not (sym q)
  Holds-Kept a b h (inr (p, q)) = p ∙ ap not (sym q)

  pub let_go :
      (a b : ActiveControl N F) → Kept a b → (b.owns_lock ≡ a.owns_lock) ⊎ (b.owns_lock ≡ false)
  let_go a b (inl (p, q)) = inl p
  let_go a b (inr (p, q)) = inr p

-- The mutex behind a lock that is kept or let go.
pub bit-mutex_after :
    (n : ℕ) (owned owns mutex : Bool)
    → (owns ≡ owned) ⊎ (owns ≡ false)
    → n + bit owned ≡ bit mutex
    → n + bit owns ≡ bit (mutex_after owned owns mutex)
bit-mutex_after n true true mutex k h = h
bit-mutex_after n true false true k h = omega arith
bit-mutex_after n true false false k h = omega arith
bit-mutex_after n false true mutex (inl k) h = absurd (cc)
bit-mutex_after n false true mutex (inr k) h = absurd (cc)
bit-mutex_after n false false mutex k h = h

-- The mutex without a lock that is let go.
pub bit-unlocked :
    (n : ℕ) (owned owns mutex : Bool)
    → owns ≡ false
    → n + bit owned ≡ bit mutex
    → n ≡ bit (mutex_after owned owns mutex)
bit-unlocked n owned owns mutex k h =
    omega (arith, bit-mutex_after n owned owns mutex (inr k) h, bit_false owns k)
  where
    bit_false : (b : Bool) → b ≡ false → bit b ≡ 0
    bit_false true h = absurd (cc)
    bit_false false h = refl

module _ {N F U : Type 0} where
  -- The mutex is locked exactly if an operation runs or an active control owns it, one of these alone.
  abbrev pub IsExclusive : World N F U → Type 0
  IsExclusive w =
      (length w.blocks + owners w.actives ≡ bit w.robot.robot.control_mutex) × AllHold w.actives

  pub unlocked_mutex :
      {A : Type 0} (p : Result (Exception F) A × Session (Robot N F) U)
      → p.0 ≢ running
      → (unlocked p).1.robot.control_mutex ≡ false
  unlocked_mutex (ok a, s) h = refl
  unlocked_mutex (raise x, s) h = refl
  unlocked_mutex (running, s) h = absurd (h refl)

  pub try_to_lock-ok :
      (s t : Session (Robot N F) U)
      → try_to_lock s ≡ (ok tt, t)
      → (s.robot.control_mutex ≡ false) × (t ≡ set_mutex true s)
  unfolding try_to_lock
  try_to_lock-ok s t h =
      let (p, q) = throw_if-ok s.robot.control_mutex not_owned (modify (set_mutex true)) s h in
      (p, sym (ap (λ r. r.1) q))

  -- A start that returned locked the mutex for what it returned; one that threw left it as it was.
  pub started-ok :
      (r : Result (Exception F) (ActiveControl N F) × Session (Robot N F) U) {a : ActiveControl N F}
      {t : Session (Robot N F) U}
      → unlocked_on_raise r ≡ (ok a, t)
      → r ≡ (ok a, t)
  started-ok (ok a, s) h = h
  started-ok (raise x, s) h = absurd (cc)
  started-ok (running, s) h = absurd (cc)

  pub started-raise :
      (r : Result (Exception F) (ActiveControl N F) × Session (Robot N F) U) {x : Exception F}
      {t : Session (Robot N F) U}
      → unlocked_on_raise r ≡ (raise x, t)
      → t.robot.control_mutex ≡ false
  started-raise (ok a, s) h = absurd (cc)
  started-raise (raise x, s) h = sym (ap (λ p. p.1.robot.control_mutex) h)
  started-raise (running, s) h = absurd (cc)
