-- ===== src/Printing/Joined.antt =====
-- The text of `Errors` is the list of the names of the errors that are set.
use mathlib.Core.Path.{subst}
use libfranka.Prelude.{
  ℕ, suc, ◌<◌, ◌≡◌, ◌∙◌, refl, sym, ap, Bool, true, false, not, ltb, arith, to_list, List, [], ◌∷◌,
  ◌++◌, append_assoc, append-nil, length, length-append, get_or, if◌then◌else◌,
}
use libfranka.RobotState.{Errors}
use libfranka.Printing.Codes.{Text, codes, erase_last_two, erase_last_two-append}
use libfranka.Printing.ErrorNames.{Error, enumerators, get_error_name}
use libfranka.Printing.Flags.{any_of, has_error, entry, append_errors, errors_text}

-- The errors whose flags are set, from the index `i` on.
abbrev pub set_errors : (i : ℕ) → List Bool → List ℕ
set_errors i [] = []
set_errors i (true ∷ flags) = i ∷ set_errors (suc i) flags
set_errors i (false ∷ flags) = set_errors (suc i) flags

abbrev quoted : ℕ → Text
quoted i =
    codes "\""
    ++ (codes (get_error_name (get_or enumerators i Error.joint_position_limits_violation))
        ++ codes "\"")

-- The quoted names with a comma and a space between two of them.
abbrev pub joined : List ℕ → Text
joined [] = []
joined (i ∷ []) = quoted i
joined (i ∷ j ∷ is) = quoted i ++ (codes ", " ++ joined (j ∷ is))

abbrev pub none_of : List ℕ → Bool
none_of [] = true
none_of (i ∷ is) = false

entries : List ℕ → Text
entries [] = []
entries (i ∷ is) = entry i ++ entries is

append_errors-entries :
    (i : ℕ) (flags : List Bool) (text : Text)
    → append_errors i flags text ≡ text ++ entries (set_errors i flags)
unfolding append_errors entries
append_errors-entries i [] text = sym (append-nil text)
append_errors-entries i (true ∷ flags) text =
    append_errors-entries (suc i) flags (text ++ entry i)
    ∙ append_assoc text (entry i) (entries (set_errors (suc i) flags))
append_errors-entries i (false ∷ flags) text = append_errors-entries (suc i) flags text

entry-quoted : (i : ℕ) → entry i ≡ quoted i ++ codes ", "
unfolding entry codes
entry-quoted i =
    let name =
      codes (get_error_name (get_or enumerators i Error.joint_position_limits_violation)) in
    sym (
      append_assoc (codes "\"") (name ++ codes "\"") (codes ", ")
      ∙ ap (λ t. codes "\"" ++ t) (append_assoc name (codes "\"") (codes ", ")))

entries-joined : (i : ℕ) (is : List ℕ) → entries (i ∷ is) ≡ joined (i ∷ is) ++ codes ", "
unfolding entries
entries-joined i [] = append-nil (entry i) ∙ entry-quoted i
entries-joined i (j ∷ is) =
    ap (λ t. t ++ entries (j ∷ is)) (entry-quoted i)
    ∙ append_assoc (quoted i) (codes ", ") (entries (j ∷ is))
    ∙ ap (λ t. quoted i ++ (codes ", " ++ t)) (entries-joined j is)
    ∙ ap (λ t. quoted i ++ t) (sym (append_assoc (codes ", ") (joined (j ∷ is)) (codes ", ")))
    ∙ sym (append_assoc (quoted i) (codes ", " ++ joined (j ∷ is)) (codes ", "))

any_of-set_errors : (i : ℕ) (flags : List Bool) → any_of flags ≡ not (none_of (set_errors i flags))
any_of-set_errors i [] = refl
any_of-set_errors i (true ∷ flags) = refl
any_of-set_errors i (false ∷ flags) = any_of-set_errors (suc i) flags

-- The end of the conversion, given what the loop appended.
shortened :
    (is : List ℕ) (text : Text)
    → text ≡ codes "[" ++ entries is
    → (if ltb 1 (length text) then erase_last_two text else text) ≡ codes "[" ++ joined is
unfolding entries codes
shortened [] text e = rw e refl
shortened (i ∷ is) text e =
    let whole : text ≡ (codes "[" ++ joined (i ∷ is)) ++ codes ", " =
      e ∙ ap (λ t. codes "[" ++ t) (entries-joined i is) in
    let long : 1 < length text =
      subst (λ t. 1 < length t) (sym whole)
        (omega (arith, length-append (codes "[" ++ joined (i ∷ is)) (codes ", "))) in
    let chosen : (if ltb 1 (length text) then erase_last_two text else text) ≡ erase_last_two text =
      ground (arith, long) in
    chosen ∙ ap erase_last_two whole ∙ erase_last_two-append (codes "[" ++ joined (i ∷ is)) 44 32

-- For all 41 flags: `Errors` as text is the quoted names of the errors that are set, in the order of
-- the flags, separated by a comma and a space, within brackets; and `Errors` as a Boolean is true
-- exactly when there is one.
pub errors_text-joined :
    (e : Errors)
    → (errors_text e ≡ (codes "[" ++ joined (set_errors 0 (to_list e.flags))) ++ codes "]")
      × (has_error e ≡ not (none_of (set_errors 0 (to_list e.flags))))
unfolding errors_text has_error
errors_text-joined e = (
  ap (λ t. t ++ codes "]")
      (shortened (set_errors 0 (to_list e.flags)) _
        (append_errors-entries 0 (to_list e.flags) (codes "["))),
  any_of-set_errors 0 (to_list e.flags),
)
