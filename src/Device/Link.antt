-- ===== src/Device/Link.antt =====
-- The connection of a gripper, and the functions that both grippers have in the same words.
use libfranka.Prelude.{
  ℕ, zero, suc, Bool, true, false, String, ◌<>◌, Option, none, some, [], ◌∷◌, get_or, Method, pure,
  throw, diverge, ◌>>=◌,
}
use libfranka.Interface.{Response}
use libfranka.Interface.Status
use libfranka.Exceptions.{Exception, command, protocol, incompatible_version}

-- The operations of `Network` that a gripper calls, over a type `N` of states of the connection, with
-- `W` for the datagrams and `Q` for the requests.
pub record Device (N W Q F : Type 0) : Type 0 where
  pub udp_port : N → ℕ  -- uint16_t
  pub udp_receive : Method (Exception F) N (Option W)
  pub udp_blocking_receive : Method (Exception F) N W
  pub tcp_send_request : Q → Method (Exception F) N ℕ
  pub tcp_blocking_receive_response : ℕ → Method (Exception F) N Response

-- `CommandBase::Status` of both; `unlisted` is the `default` of the switch.
pub data DeviceAnswer : Type 0 where
  success fail unsuccessful aborted : DeviceAnswer
  unlisted : ℕ → DeviceAnswer

abbrev pub answer_of : ℕ → DeviceAnswer
answer_of b =
    get_or
      (DeviceAnswer.success ∷ DeviceAnswer.fail ∷ DeviceAnswer.unsuccessful ∷ DeviceAnswer.aborted
        ∷ [])
      b (DeviceAnswer.unlisted b)

module _ {N F : Type 0} where
  -- The switch of `executeCommand`, with the name of the gripper in its messages.
  unfoldable pub judge : String → DeviceAnswer → Method (Exception F) N Bool
  judge gripper DeviceAnswer.success = pure true
  judge gripper DeviceAnswer.fail = throw (command (gripper <> ": Command failed!"))
  judge gripper DeviceAnswer.unsuccessful = pure false
  judge gripper DeviceAnswer.aborted = throw (command (gripper <> ": Command aborted!"))
  judge gripper (DeviceAnswer.unlisted b) =
      throw (protocol (gripper <> ": Unexpected response while handling command!"))

  -- The switch of `connect`.
  unfoldable pub greeted : (k_version : ℕ) → Response → Status.Connect → Method (Exception F) N ℕ
  greeted k_version r Status.Connect.success = pure r.version
  greeted k_version r Status.Connect.incompatible_library_version =
      throw (incompatible_version r.version k_version)
  greeted k_version r (Status.Connect.unlisted b) =
      throw (protocol "libfranka: Protocol error during connection attempt")

module _ {N W Q F : Type 0} (n : Device N W Q F) where
  unfoldable pub execute : String → Q → Method (Exception F) N Bool
  unfolding judge
  execute gripper request = do
    command_id ← n.tcp_send_request request
    response ← n.tcp_blocking_receive_response command_id
    judge gripper (answer_of response.status)

  -- `connect<Connect, kVersion>`, given the request.
  unfoldable pub greet : (k_version : ℕ) → Q → Method (Exception F) N ℕ
  unfolding greeted
  greet k_version request = do
    command_id ← n.tcp_send_request request
    response ← n.tcp_blocking_receive_response command_id
    greeted k_version response (Status.connect response.status)

  -- The loop that deletes old data from the buffer.
  unfoldable pub drop_old : (fuel : ℕ) → Method (Exception F) N (Unit {0})
  drop_old zero = diverge
  drop_old (suc fuel) =
      n.udp_receive >>= λ received. elim received [ none ↦ pure tt | some r ↦ drop_old fuel ]

  -- `readOnce`, given the conversion of the state.
  unfoldable pub read_with : {A : Type 0} → (W → A) → (fuel : ℕ) → Method (Exception F) N A
  unfolding drop_old
  read_with convert fuel = do
    dropped ← drop_old fuel
    received ← n.udp_blocking_receive
    pure (convert received)
