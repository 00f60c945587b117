-- ===== src/RobotApi/Exclusive.antt =====
-- At most one operation or active control has the control mutex, and the others are refused.
use mathlib.Core.Path.{subst}
use libfranka.Prelude.{
  ℕ, suc, ◌+◌, ◌≤◌, ◌≡◌, ◌≢◌, ◌∙◌, refl, sym, ap, Bool, true, false, not, List, [], ◌∷◌, ◌++◌,
  length, Double, Result, raise, running, pure, throw_if, modify, after-keeps, ◌>>=◌, ◌>>◌, arith,
}
use libfranka.Geometry.{Geometry}
use libfranka.LoadCalculations.{Eigen}
use libfranka.Exceptions.{Exception}
use libfranka.Interface.{Request, MoveController, MoveGenerator}
use libfranka.Robot.{Network, Impl, execute_command}
use libfranka.ActiveControl.{ActiveControl}
use libfranka.ActiveControl.Writes.{destroy-ok}
use libfranka.ControlLoop.{Session, System, by_robot}
use libfranka.RobotApi.Lock.{
  Robot, not_owned, try_to_lock, on_impl, unlocked, unlocked_on_raise, with_lock, set_mutex,
}
use libfranka.RobotApi.Calls.{
  Call, Answer, block, call, start_block, start_control, start_torque_control,
}
use libfranka.RobotApi.Settings.{send}
use libfranka.RobotApi.Owners.{Kept, perform-Kept}
use libfranka.RobotApi.Counts.{
  bit, owners, AllHold, owners-insert, AllHold-insert, Holds-Kept, let_go, bit-mutex_after,
  bit-unlocked, IsExclusive, unlocked_mutex, try_to_lock-ok,
}
use libfranka.RobotApi.Starts.{start-ok, start-raise}
use libfranka.RobotApi.Steps.{
  World, Start, motion, torques, attached, shared, start, Step, enters, leaves, starts, fails, uses,
  destroys, sends, Reach, begins, later,
}

bit_of : {m c : Bool} → m ≡ c → bit m ≡ bit c
bit_of h = ap bit h

module _ {N F U : Type 0} ⦃d : Double F⦄ ⦃n : Network N F⦄ where
  send-mutex :
      (request : Request F) (s : Session (Robot N F) U)
      → (send request s).1.robot.control_mutex ≡ s.robot.control_mutex
  unfolding send
  send-mutex request s =
      after-keeps (λ (t : Session (Robot N F) U). t.robot.control_mutex ≡ s.robot.control_mutex)
        (on_impl (by_robot (execute_command request)) s) (λ _. pure tt) refl λ _. refl

module _ {A : Type 0} where
  length-insert : (a : A) (xs ys : List A) → length (xs ++ (a ∷ ys)) ≡ suc (length (xs ++ ys))
  length-insert a [] ys = refl
  length-insert a (x ∷ xs) ys = ap suc (length-insert a xs ys)

module _ {N F U : Type 0} ⦃d : Double F⦄ ⦃n : Network N F⦄ ⦃e : Eigen F⦄ ⦃g : Geometry F⦄
    (fuel rounds cycles : ℕ) (system : System) where
  -- The mutex behind a block that ended, of one or more that ran.
  leaves-IsExclusive :
      (c : Call F U) (before behind : List (Call F U)) (w : World N F U)
      → w.blocks ≡ before ++ (c ∷ behind)
      → (p : Result (Exception F) (Answer c) × Session (Robot N F) U) → p.0 ≢ running
      → IsExclusive w
      → IsExclusive (record w { robot = (unlocked p).1; blocks = before ++ behind })
  leaves-IsExclusive c before behind w e p h (one, hold) = (
    omega (
      arith,
      ap length e,
      length-insert c before behind,
      one,
      bit_of (unlocked_mutex p h),
      at_most w.robot.robot.control_mutex,
    ),
    hold,
  )
    where
      at_most : (b : Bool) → bit b ≤ 1
      at_most true = omega arith
      at_most false = omega arith

  uses-IsExclusive :
      (a b : ActiveControl N F) (before behind : List (ActiveControl N F)) (w : World N F U)
      → w.actives ≡ before ++ (a ∷ behind)
      → Kept a b
      → IsExclusive w
      → IsExclusive (record w { robot = shared w a b; actives = before ++ (b ∷ behind) })
  uses-IsExclusive a b before behind w e kept (one, hold) =
      let (held, others) = (AllHold-insert a before behind).0 (subst AllHold e hold) in
      let counted =
        bit-mutex_after (length w.blocks + owners (before ++ behind)) a.owns_lock b.owns_lock
          w.robot.robot.control_mutex (let_go a b kept)
          (omega (arith, one, ap owners e, owners-insert a before behind)) in
      (
        omega (arith, counted, owners-insert b before behind),
        (AllHold-insert b before behind).1 (Holds-Kept a b held kept, others),
      )

  destroys-IsExclusive :
      (a b : ActiveControl N F) (before behind : List (ActiveControl N F)) (w : World N F U)
      → w.actives ≡ before ++ (a ∷ behind)
      → b.owns_lock ≡ false
      → IsExclusive w
      → IsExclusive (record w { robot = shared w a b; actives = before ++ behind })
  destroys-IsExclusive a b before behind w e gone (one, hold) = (
    bit-unlocked (length w.blocks + owners (before ++ behind)) a.owns_lock b.owns_lock
        w.robot.robot.control_mutex gone
        (omega (arith, one, ap owners e, owners-insert a before behind)),
    ((AllHold-insert a before behind).0 (subst AllHold e hold)).1,
  )

  Step-IsExclusive :
      (v w : World N F U) → Step fuel rounds cycles system v w → IsExclusive v → IsExclusive w
  Step-IsExclusive v _ (enters c {s} h) (one, hold) =
      let (free, locked) = try_to_lock-ok v.robot s h in
      (
        omega (
          arith,
          one,
          bit_of free,
          bit_of (ap (λ (x : Session (Robot N F) U). x.robot.control_mutex) locked),
        ),
        hold,
      )
  Step-IsExclusive v _ (leaves c before behind e h) k =
      leaves-IsExclusive c before behind v e (on_impl (block fuel rounds cycles system c) v.robot) h
        k
  Step-IsExclusive v _ (starts x {a} {s} h) (one, hold) =
      let (free, locked, owns, holds) = start-ok fuel rounds x v.robot s h in
      (omega (arith, one, bit_of free, bit_of locked, bit_of owns), (holds, hold))
  Step-IsExclusive v _ (fails x {y} {s} h) (one, hold) =
      (one ∙ bit_of (sym (start-raise fuel rounds x v.robot s h)), hold)
  Step-IsExclusive v _ (uses u a before behind {b} e h) k =
      uses-IsExclusive a b before behind v e
        (subst (Kept a) h (perform-Kept fuel rounds u (attached v a))) k
  Step-IsExclusive v _ (destroys a before behind {b} e h) k =
      destroys-IsExclusive a b before behind v e (destroy-ok fuel rounds (attached v a) b h).0 k
  Step-IsExclusive v _ (sends request) (one, hold) =
      (one ∙ bit_of (sym (send-mutex request v.robot)), hold)

  -- However operations and active controls follow each other, the control mutex is locked exactly if a
  -- block runs or an active control owns it, one of them alone, and an active control owns it exactly
  -- until it is finished.
  pub Reach-IsExclusive :
      (impl : Impl N F) (user : U) (w : World N F U)
      → Reach fuel rounds cycles system impl user w
      → IsExclusive w
  Reach-IsExclusive impl user _ begins = (refl, tt)
  Reach-IsExclusive impl user w (later {v = v} r step) =
      Step-IsExclusive v w step (Reach-IsExclusive impl user v r)

  -- A locked mutex refuses each operation and each start.
  pub call-refused :
      (c : Call F U) (s : Session (Robot N F) U)
      → s.robot.control_mutex ≡ true
      → call fuel rounds cycles system c s ≡ (raise not_owned, s)
  unfolding call with_lock try_to_lock
  call-refused c s h =
      ap
        (λ b.
          (throw_if b not_owned >> modify (set_mutex true) >>= λ _ t.
          unlocked (on_impl (block fuel rounds cycles system c) t))
            s)
        h

  start-refused :
      (x : Start) (s : Session (Robot N F) U)
      → s.robot.control_mutex ≡ true
      → start fuel rounds x s ≡ (raise not_owned, s)
  unfolding start start_control start_torque_control try_to_lock
  start-refused (motion k c) s h =
      ap
        (λ b.
          (throw_if b not_owned >> modify (set_mutex true) >>= λ _ t.
          unlocked_on_raise (start_block fuel rounds c k t))
            s)
        h
  start-refused torques s h =
      ap
        (λ b.
          (throw_if b not_owned >> modify (set_mutex true) >>= λ _ t. unlocked_on_raise (
              start_block fuel rounds MoveController.external_controller
                MoveGenerator.joint_velocity t))
            s)
        h

  -- While an active control that was reached is not finished, each overload of `control`, `read`,
  -- `readOnce` and each start of another throws the exception of a lock that is not owned and changes
  -- nothing, no block runs, and no other active control owns the mutex.
  pub active-alone :
      (impl : Impl N F) (user : U) (w : World N F U) (a : ActiveControl N F)
      (before behind : List (ActiveControl N F))
      → Reach fuel rounds cycles system impl user w
      → w.actives ≡ before ++ (a ∷ behind)
      → a.control_finished ≡ false
      → ((c : Call F U) → call fuel rounds cycles system c w.robot ≡ (raise not_owned, w.robot))
        × ((x : Start) → start fuel rounds x w.robot ≡ (raise not_owned, w.robot))
        × (length w.blocks ≡ 0)
        × (owners (before ++ behind) ≡ 0)
  active-alone impl user w a before behind reach e going =
      let (one, hold) = Reach-IsExclusive impl user w reach in
      let (held, _) = (AllHold-insert a before behind).0 (subst AllHold e hold) in
      let owns : a.owns_lock ≡ true = held ∙ ap not going in
      let (locked, rest) =
        only_one w.robot.robot.control_mutex (length w.blocks + owners (before ++ behind))
          (omega (arith, one, ap owners e, owners-insert a before behind, bit_of owns)) in
      (
        (λ c. call-refused c w.robot locked),
        (λ x. start-refused x w.robot locked),
        omega (arith, rest),
        omega (arith, rest),
      )
    where
      only_one : (b : Bool) (k : ℕ) → suc k ≡ bit b → (b ≡ true) × (k ≡ 0)
      only_one true k h = (refl, omega arith)
      only_one false k h = absurd (cc)
