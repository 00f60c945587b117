-- ===== src/Tests/Devices.antt =====
-- Runs of a gripper, and commands made from lists.
use libfranka.Prelude.{
  ℕ, ◌≡◌, ◌<◌, ◌↔◌, refl, true, false, Option, none, some, List, [], ◌∷◌, filled, to_list,
  replicate, Result, ok, pure, ◌>>=◌, ◌^◌, arith,
}
use libfranka.Exceptions.{Exception}
use libfranka.ControlTypes.FromLists.{pose_with_elbow_of, pose_of_lists, pose_of_lists-ok}
use libfranka.Device.{Device, read_with}
use libfranka.Device.Fresh.{IsSocket, read_with-fresh}
use libfranka.Gripper.{GripperRequest, WireGripperState, convert_gripper_state}
use libfranka.VacuumGripper.{
  DeviceStatus, WireVacuumState, convert_vacuum_state, convert_vacuum_state-exact,
}
use libfranka.Tests.Script.{count_double, success}

-- The datagrams that have arrived, and the next that will.
record Buffer : Type 0 where
  arrived : List (WireGripperState ℕ)
  later : WireGripperState ℕ

abbrev poll :
    List (WireGripperState ℕ) → Buffer → Result (Exception ℕ) (Option (WireGripperState ℕ)) × Buffer
poll [] c = (ok none, c)
poll (r ∷ q) c = (ok (some r), record c { arrived = q })

abbrev hand : Device Buffer (WireGripperState ℕ) (GripperRequest ℕ) ℕ
hand = record {
  udp_port = λ c. 2000;
  udp_receive = λ c. poll c.arrived c;
  udp_blocking_receive = λ c. (ok c.later, c);
  tcp_send_request = λ request c. (ok 7, c);
  tcp_blocking_receive_response = λ id c. (ok success, c);
}

poll_next :
    (l : List (WireGripperState ℕ)) (c : Buffer) (r : WireGripperState ℕ)
    (q : List (WireGripperState ℕ))
    → l ≡ r ∷ q
    → (t : Buffer) × (poll l c ≡ (ok (some r), t)) × (t.arrived ≡ q)
poll_next [] c r q e = absurd (cc)
poll_next (x ∷ l) c r q e = (record c { arrived = l }, cc, cc)

poll_quiet : (l : List (WireGripperState ℕ)) (c : Buffer) → l ≡ [] → poll l c ≡ (ok none, c)
poll_quiet [] c e = refl
poll_quiet (x ∷ l) c e = absurd (cc)

hand-IsSocket : IsSocket hand (λ c. c.arrived)
hand-IsSocket = record {
  next = λ c r q e. poll_next c.arrived c r q e;
  quiet = λ c e. poll_quiet c.arrived c e;
}

abbrev seen : ℕ → WireGripperState ℕ
seen id = record { message_id = id; width = 4; max_width = 8; is_grasped = false; temperature = 30 }

abbrev crowded : Buffer
crowded = record { arrived = seen 1 ∷ seen 2 ∷ []; later = seen 3 }

read_with-fresh_example :
    (t : Buffer) × (t.arrived ≡ [])
    × (read_with hand convert_gripper_state 3 crowded
        ≡ (hand.udp_blocking_receive >>= λ r. pure (convert_gripper_state r)) t)
read_with-fresh_example =
    read_with-fresh hand (λ c. c.arrived) hand-IsSocket convert_gripper_state 3 crowded
      (omega arith)

abbrev strong : WireVacuumState
strong = record {
  message_id = 1;
  in_control_range = true;
  part_detached = false;
  part_present = true;
  device_status = DeviceStatus.green;
  actual_power = 70000;
  vacuum = 100;
}

convert_vacuum_state-exact_example :
    (((convert_vacuum_state strong).actual_power ≡ 70000)
      × ((convert_vacuum_state strong).vacuum ≡ 100))
    ↔ ((70000 < 2 ^ 16) × (100 < 2 ^ 16))
convert_vacuum_state-exact_example = convert_vacuum_state-exact strong

abbrev ones : ℕ → List ℕ
ones n = replicate n 1

pose_of_lists-ok_example :
    (pose_of_lists (ones 16) (ones 2) ≡ ok (pose_with_elbow_of (filled 1 16) (filled 1 2)))
    ↔ ((to_list (filled 1 16) ≡ ones 16) × (to_list (filled 1 2) ≡ ones 2) × (false ≡ false))
pose_of_lists-ok_example =
    pose_of_lists-ok (ones 16) (ones 2) (pose_with_elbow_of (filled 1 16) (filled 1 2))
