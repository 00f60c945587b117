-- ===== src/Tests/Text.antt =====
-- Text and frames at concrete values.
use libfranka.Prelude.{ℕ, ◌≡◌, ◌++◌, refl, not, true, false, ◌▸◌, filled, [], ◌∷◌, to_list}
use libfranka.Interface.{empty_command}
use libfranka.RobotState.{Errors, empty_robot_state}
use libfranka.Exceptions.{Record}
use libfranka.Logger.Flush.{to_record}
use libfranka.Printing.{
  codes, get_error_name, has_error, entry, append_errors, errors_text, Show, log_to_csv,
}
use libfranka.Printing.Joined.{joined, none_of, set_errors, errors_text-joined}
use libfranka.Printing.Lines.{IsPlain, header, ended, lines_of, AreRows, log_to_csv-AreRows}
use libfranka.Tests.Script.{count_double}

-- The first and the third error.
abbrev two_errors : Errors
two_errors = record { flags = true ▸ false ▸ true ▸ filled false 38 }

errors_text-joined_example :
    (errors_text two_errors
      ≡ (codes "[" ++ joined (set_errors 0 (to_list two_errors.flags))) ++ codes "]")
    × (has_error two_errors ≡ not (none_of (set_errors 0 (to_list two_errors.flags))))
errors_text-joined_example = errors_text-joined two_errors

two_errors_text :
    errors_text two_errors
    ≡ codes "[\"joint_position_limits_violation\", \"self_collision_avoidance_violation\"]"
unfolding errors_text append_errors entry get_error_name codes
two_errors_text = refl

-- Every number is written as the digit one.
abbrev ones : Show ℕ
ones = record { count = λ n. codes "1"; double = λ x. codes "1" }

ones-IsPlain : IsPlain ones
unfolding codes
ones-IsPlain = record {
  counts = λ n. record { commas = refl; unbroken = refl };
  doubles = λ x. record { commas = refl; unbroken = refl };
}

abbrev one_record : Record ℕ
one_record = to_record (empty_robot_state, empty_command)

log_to_csv-AreRows_example :
    (log_to_csv ones (one_record ∷ []) ≡ ended (header ones ∷ lines_of ones (one_record ∷ [])))
    × AreRows (header ones ∷ lines_of ones (one_record ∷ []))
log_to_csv-AreRows_example = log_to_csv-AreRows ones ones-IsPlain one_record []
