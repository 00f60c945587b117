-- ===== src/Tests/Script.antt =====
-- A connection whose robot follows a script, and the numbers and matrices of the tests.
use libfranka.Prelude.{
  ℕ, zero, suc, ◌≡◌, refl, ◌+◌, ◌-◌, ◌*◌, Bool, true, false, Option, none, some, List, [], ◌∷◌,
  ◌++◌, Double, Result, ok, raise, running, ltb, leb, ◌==◌, zip_with,
}
use libfranka.Interface.{
  MotionGeneratorMode, ControllerMode, RobotMode, WireState, WireCommand, Request, Response,
  empty_state,
}
use libfranka.Exceptions.{Exception, network}
use libfranka.ControlTypes.{RealtimeConfig}
use libfranka.RobotState.{empty_robot_state}
use libfranka.LoadCalculations.{Eigen}
use libfranka.Logger.{new}
use libfranka.Robot.{Network, Impl}
use libfranka.Robot.Newest.{IsQueue}
use mathlib.Core.List.{head?}

instance abbrev pub count_double : Double ℕ
count_double = record {
  literal = λ m e. m;
  add = λ x y. x + y;
  sub = λ x y. x - y;
  mul = λ x y. x * y;
  div = λ x y. x;
  neg = λ x. 0;
  abs = λ x. x;
  sqrt = λ x. x;
  lt = ltb;
  le = leb;
  eq = λ x y. x == y;
  is_finite = λ x. true;
  m_pi = 3;
  pow = λ x y. x * x;
  sin = λ x. 0;
  cos = λ x. 1;
}

instance abbrev pub count_matrices : Eigen ℕ
count_matrices = record {
  by_rows = λ a. a;
  mat_mul = zip_with (λ x y. x * y);
  mat_add = zip_with (λ x y. x + y);
  mat_sub = zip_with (λ x y. x - y);
  mat_scale = λ k a. zip_with (λ x y. k * x) a a;
}

-- The datagrams under way, the responses under way, what was sent, and the next command id.
pub record Script : Type 0 where
  pub datagrams : List (WireState ℕ)
  pub arrived : ℕ
  pub responses : List Response
  pub sent : List (WireCommand ℕ)
  pub requests : List (Request ℕ)

abbrev next_state : Script → Result (Exception ℕ) (WireState ℕ) × Script
next_state c = elim c.datagrams [
  | [] ↦ (raise (network "UDP receive: Timeout"), c)
  | r ∷ rest ↦ (ok r, record c { datagrams = rest; arrived = c.arrived - 1 })
]

-- A datagram that has arrived, if there is one.
abbrev take_arrived :
    List (WireState ℕ) → ℕ → Script → Result (Exception ℕ) (Option (WireState ℕ)) × Script
take_arrived [] n c = (ok none, c)
take_arrived (r ∷ rest) zero c = (ok none, c)
take_arrived (r ∷ rest) (suc n) c = (ok (some r), record c { datagrams = rest; arrived = n })

abbrev arrived_of : List (WireState ℕ) → ℕ → List (WireState ℕ)
arrived_of [] n = []
arrived_of (r ∷ rest) zero = []
arrived_of (r ∷ rest) (suc n) = r ∷ arrived_of rest n

abbrev pub pending : Script → List (WireState ℕ)
pending c = arrived_of c.datagrams c.arrived

abbrev next_response : Script → Result (Exception ℕ) Response × Script
next_response c = elim c.responses [
  | [] ↦ (raise (network "TCP receive: Timeout"), c)
  | r ∷ rest ↦ (ok r, record c { responses = rest })
]

abbrev handled :
    (Response → Result (Exception ℕ) (Unit {0})) → Script → Result (Exception ℕ) Bool × Script
handled handler c = elim c.responses [
  | [] ↦ (ok false, c)
  | r ∷ rest ↦ elim (handler r) [
    | ok _ ↦ (ok true, record c { responses = rest })
    | raise e ↦ (raise e, c)
    | running ↦ (running, c)
  ]
]

instance abbrev pub scripted : Network Script ℕ
scripted = record {
  udp_port = λ c. 2000;
  udp_receive = λ c. take_arrived c.datagrams c.arrived c;
  udp_blocking_receive = next_state;
  udp_send = λ command c. (ok tt, record c { sent = c.sent ++ command ∷ [] });
  tcp_throw_if_connection_closed = λ c. (ok tt, c);
  tcp_send_connect = λ version port c. (ok 7, c);
  tcp_send_request = λ request c. (ok 7, record c { requests = c.requests ++ request ∷ [] });
  tcp_blocking_receive_response = λ c id. next_response;
  tcp_receive_response = λ c id. handled;
}

abbrev pub moving : ℕ → WireState ℕ
moving id = record empty_state {
  message_id = id;
  motion_generator_mode = MotionGeneratorMode.joint_position;
  controller_mode = ControllerMode.joint_impedance;
  robot_mode = RobotMode.move;
}

abbrev pub resting : ℕ → WireState ℕ
resting id = record empty_state {
  message_id = id;
  motion_generator_mode = MotionGeneratorMode.idle;
  controller_mode = ControllerMode.other;
  robot_mode = RobotMode.idle;
}

abbrev pub success : Response
success = record { status = 0; version = 0 }

abbrev pub motion_started : Response
motion_started = record { status = 1; version = 0 }

abbrev pub plays : List (WireState ℕ) → ℕ → List Response → Script
plays datagrams arrived responses = record {
  datagrams = datagrams;
  arrived = arrived;
  responses = responses;
  sent = [];
  requests = [];
}

abbrev pub at_rest : Script → Impl Script ℕ
at_rest c = record {
  network = c;
  logger = new 2;
  realtime_config = RealtimeConfig.enforce;
  ri_version = 5;
  robot_mode = RobotMode.idle;
  motion_generator_mode = MotionGeneratorMode.idle;
  current_move_motion_generator_mode = MotionGeneratorMode.idle;
  controller_mode = ControllerMode.other;
  current_move_controller_mode = ControllerMode.other;
  message_id = 1;
  current_state = empty_robot_state;
}

abbrev pub in_motion : Script → Impl Script ℕ
in_motion c = record (at_rest c) {
  robot_mode = RobotMode.move;
  motion_generator_mode = MotionGeneratorMode.joint_position;
  current_move_motion_generator_mode = MotionGeneratorMode.joint_position;
  controller_mode = ControllerMode.joint_impedance;
  current_move_controller_mode = ControllerMode.joint_impedance;
}

first_lem :
    (l : List (WireState ℕ)) (n : ℕ) (c : Script)
    → (take_arrived l n c).0 ≡ ok (head? (arrived_of l n))
first_lem [] n c = refl
first_lem (r ∷ l) zero c = refl
first_lem (r ∷ l) (suc n) c = refl

rest_lem :
    (l : List (WireState ℕ)) (n : ℕ) (c : Script) (r : WireState ℕ) (q : List (WireState ℕ))
    → arrived_of l n ≡ r ∷ q
    → pending (take_arrived l n c).1 ≡ q
rest_lem [] n c r q e = absurd (cc)
rest_lem (r' ∷ l) zero c r q e = absurd (cc)
rest_lem (r' ∷ l) (suc n) c r q e = cc

empty_lem :
    (l : List (WireState ℕ)) (n : ℕ) (c : Script)
    → pending c ≡ []
    → arrived_of l n ≡ []
    → pending (take_arrived l n c).1 ≡ []
empty_lem [] n c h e = h
empty_lem (r ∷ l) zero c h e = h
empty_lem (r ∷ l) (suc n) c h e = absurd (cc)

pub pending-IsQueue : IsQueue pending
pending-IsQueue = record {
  first = λ c. first_lem c.datagrams c.arrived c;
  rest = λ c. rest_lem c.datagrams c.arrived c;
  empty = λ c e. empty_lem c.datagrams c.arrived c e e;
}
