-- ===== src/Printing/Flags.antt =====
-- src/errors.cpp: whether an error is set, and the text of those that are.
use libfranka.Prelude.{
  ℕ, suc, Bool, ltb, to_list, List, [], ◌∷◌, ◌++◌, length, get_or, if◌then◌else◌, ◌||◌, false,
}
use libfranka.RobotState.{Errors}
use libfranka.Printing.Codes.{Text, codes, erase_last_two}
use libfranka.Printing.ErrorNames.{Error, enumerators, get_error_name}

-- `std::any_of` for a flag
abbrev pub any_of : List Bool → Bool
any_of [] = false
any_of (b ∷ flags) = b || any_of flags

-- `Errors::operator bool`
unfoldable pub has_error : Errors → Bool
has_error e = any_of (to_list e.flags)

-- What the loop appends for the error `i`.
unfoldable pub entry : ℕ → Text
entry i =
    codes "\""
    ++ (codes (get_error_name (get_or enumerators i Error.joint_position_limits_violation))
        ++ codes "\", ")

-- The loop from the index `i` on, with the text so far.
unfoldable pub append_errors : (i : ℕ) → List Bool → Text → Text
append_errors i [] error_string = error_string
append_errors i (b ∷ flags) error_string =
    append_errors (suc i) flags (if b then error_string ++ entry i else error_string)

-- `Errors::operator std::string`
unfoldable pub errors_text : Errors → Text
unfolding append_errors
errors_text e =
    let error_string = append_errors 0 (to_list e.flags) (codes "[") in
    (if ltb 1 (length error_string) then erase_last_two error_string else error_string) ++ codes "]"
