-- ===== src/Printing/Lines.antt =====
-- The log as comma-separated values is a table.
use libfranka.Prelude.{
  ℕ, zero, suc, ◌+◌, ◌≡◌, ◌∙◌, refl, sym, ap, arith, String, Array, nil, ◌▸◌, List, [], ◌∷◌, ◌++◌,
  append_assoc, append-nil,
}
use libfranka.Duration.{to_msec}
use libfranka.RobotState.{RobotState}
use libfranka.Exceptions.{RobotCommand, Record}
use libfranka.Printing.Codes.{Text, codes, occurrences, occurrences-append}
use libfranka.Printing.Csv.{
  Show, written, comma, endl, csv_name_from, csv_array, csv_robot_state_header,
  csv_robot_command_header, csv_state_line, csv_command_line, csv_lines, log_to_csv,
}

-- A part of a line with `k` commas.
pub record IsPart (k : ℕ) (t : Text) : Type 0 where
  pub commas : occurrences 44 t ≡ k
  pub unbroken : occurrences 10 t ≡ 0

-- Numbers are written without commas and new lines.
pub record IsPlain {F : Type 0} (show : Show F) : Type 0 where
  pub counts : (n : ℕ) → IsPart 0 (show.count n)
  pub doubles : (x : F) → IsPart 0 (show.double x)

-- The empty part, and a part before another.
done : IsPart 0 []
done = record { commas = refl; unbroken = refl }

infixr 20 ◌⊕◌
◌⊕◌ : {k m : ℕ} {t u : Text} → IsPart k t → IsPart m u → IsPart (k + m) (t ++ u)
◌⊕◌ {t = t} {u = u} p q = record {
  commas = omega (arith, occurrences-append 44 t u, p.commas, q.commas);
  unbroken = omega (arith, occurrences-append 10 t u, p.unbroken, q.unbroken);
}

IsPart-eq : {k m : ℕ} {t : Text} → k ≡ m → IsPart k t → IsPart m t
IsPart-eq e p = record { commas = p.commas ∙ e; unbroken = p.unbroken }

literal : (k : ℕ) (t : Text) → occurrences 44 t ≡ k → occurrences 10 t ≡ 0 → IsPart k t
literal k t p q = record { commas = p; unbroken = q }

comma-IsPart : IsPart 1 comma
unfolding codes
comma-IsPart = record { commas = refl; unbroken = refl }

module _ {F : Type 0} (show : Show F) (plain : IsPlain show) where
  csv_array-IsPart : {n : ℕ} (v : Array F (suc n)) → IsPart n (csv_array show v)
  unfolding csv_array
  csv_array-IsPart (x ▸ nil) = plain.doubles x
  csv_array-IsPart (x ▸ y ▸ v) =
      IsPart-eq (omega arith) (plain.doubles x ⊕ comma-IsPart ⊕ csv_array-IsPart (y ▸ v) ⊕ done)

  csv_name_from-IsPart :
      (n i : ℕ) (name : Text) → IsPart 0 name → IsPart n (csv_name_from show (suc n) i name)
  unfolding csv_name_from codes
  csv_name_from-IsPart zero i name p =
      p ⊕ literal 0 (codes "[") refl refl ⊕ plain.counts i ⊕ literal 0 (codes "]") refl refl ⊕ done
  csv_name_from-IsPart (suc n) i name p = IsPart-eq (omega arith) (
      p
      ⊕ literal 0 (codes "[") refl refl
      ⊕ plain.counts i
      ⊕ literal 1 (codes "],") refl refl
      ⊕ csv_name_from-IsPart n (suc i) name p
      ⊕ done)

  csv_robot_state_header-IsPart : IsPart 43 (csv_robot_state_header show)
  unfolding csv_robot_state_header codes
  csv_robot_state_header-IsPart =
      let name : (s : String) → IsPart 0 (codes s) → IsPart 6 (csv_name_from show 7 0 (codes s)) =
        λ s. csv_name_from-IsPart 6 0 (codes s) in
      literal 2 (codes "time,success_rate,") refl refl
      ⊕ name "state.q" (literal 0 _ refl refl)
      ⊕ comma-IsPart
      ⊕ name "state.q_d" (literal 0 _ refl refl)
      ⊕ comma-IsPart
      ⊕ name "state.dq" (literal 0 _ refl refl)
      ⊕ comma-IsPart
      ⊕ name "state.dq_d" (literal 0 _ refl refl)
      ⊕ comma-IsPart
      ⊕ name "state.tau_J" (literal 0 _ refl refl)
      ⊕ comma-IsPart
      ⊕ name "state.tau_ext_hat_filtered" (literal 0 _ refl refl)
      ⊕ done

  csv_robot_command_header-IsPart : IsPart 42 (csv_robot_command_header show)
  unfolding csv_robot_command_header codes
  csv_robot_command_header-IsPart =
      csv_name_from-IsPart 6 0 (codes "cmd.q_d") (literal 0 _ refl refl)
      ⊕ comma-IsPart
      ⊕ csv_name_from-IsPart 6 0 (codes "cmd.dq_d") (literal 0 _ refl refl)
      ⊕ comma-IsPart
      ⊕ csv_name_from-IsPart 15 0 (codes "cmd.O_T_EE_d") (literal 0 _ refl refl)
      ⊕ comma-IsPart
      ⊕ csv_name_from-IsPart 5 0 (codes "cmd.O_dP_EE_d") (literal 0 _ refl refl)
      ⊕ comma-IsPart
      ⊕ csv_name_from-IsPart 6 0 (codes "cmd.tau_J_d") (literal 0 _ refl refl)
      ⊕ done

  csv_state_line-IsPart : (s : RobotState F) → IsPart 43 (csv_state_line show s)
  unfolding csv_state_line
  csv_state_line-IsPart s =
      plain.counts (to_msec s.time)
      ⊕ comma-IsPart
      ⊕ plain.doubles s.control_command_success_rate
      ⊕ comma-IsPart
      ⊕ csv_array-IsPart s.q
      ⊕ comma-IsPart
      ⊕ csv_array-IsPart s.q_d
      ⊕ comma-IsPart
      ⊕ csv_array-IsPart s.dq
      ⊕ comma-IsPart
      ⊕ csv_array-IsPart s.dq_d
      ⊕ comma-IsPart
      ⊕ csv_array-IsPart s.tau_j
      ⊕ comma-IsPart
      ⊕ csv_array-IsPart s.tau_ext_hat_filtered
      ⊕ done

  csv_command_line-IsPart : (c : RobotCommand F) → IsPart 42 (csv_command_line show c)
  unfolding csv_command_line
  csv_command_line-IsPart c =
      csv_array-IsPart c.joint_positions.q
      ⊕ comma-IsPart
      ⊕ csv_array-IsPart c.joint_velocities.dq
      ⊕ comma-IsPart
      ⊕ csv_array-IsPart c.cartesian_pose.o_t_ee
      ⊕ comma-IsPart
      ⊕ csv_array-IsPart c.cartesian_velocities.o_dp_ee
      ⊕ comma-IsPart
      ⊕ csv_array-IsPart c.torques.tau_j
      ⊕ done

module _ {F : Type 0} (show : Show F) where
  -- The first line, and the line of a record.
  abbrev pub header : Text
  header = written (csv_robot_state_header show ∷ comma ∷ csv_robot_command_header show ∷ [])

  abbrev pub line : Record F → Text
  line r = written (csv_state_line show r.state ∷ comma ∷ csv_command_line show r.command ∷ [])

-- The lines, each of them ended.
abbrev pub ended : List Text → Text
ended [] = []
ended (t ∷ ts) = t ++ (endl ++ ended ts)

abbrev pub lines_of : {F : Type 0} → Show F → List (Record F) → List Text
lines_of show [] = []
lines_of show (r ∷ log) = line show r ∷ lines_of show log

-- Each line has 87 columns: 86 commas, and no new line.
abbrev pub AreRows : List Text → Type 0
AreRows [] = Unit
AreRows (t ∷ ts) = IsPart 86 t × AreRows ts

line_end :
    (ts : List Text) (rest : Text)
    → written (ts ++ (endl ∷ [])) ++ rest ≡ written ts ++ (endl ++ rest)
line_end [] rest = ap (λ t. t ++ rest) (append-nil endl)
line_end (t ∷ ts) rest =
    append_assoc t (written (ts ++ (endl ∷ []))) rest
    ∙ ap (λ x. t ++ x) (line_end ts rest)
    ∙ sym (append_assoc t (written ts) (endl ++ rest))

module _ {F : Type 0} (show : Show F) where
  csv_lines-ended : (log : List (Record F)) → csv_lines show log ≡ ended (lines_of show log)
  unfolding csv_lines
  csv_lines-ended [] = refl
  csv_lines-ended (r ∷ log) =
      line_end (csv_state_line show r.state ∷ comma ∷ csv_command_line show r.command ∷ [])
        (csv_lines show log)
      ∙ ap (λ t. line show r ++ (endl ++ t)) (csv_lines-ended log)

  lines_of-AreRows : IsPlain show → (log : List (Record F)) → AreRows (lines_of show log)
  lines_of-AreRows plain [] = tt
  lines_of-AreRows plain (r ∷ log) = (
    csv_state_line-IsPart show plain r.state
        ⊕ comma-IsPart
        ⊕ csv_command_line-IsPart show plain r.command
        ⊕ done,
    lines_of-AreRows plain log,
  )

  -- A log of at least one record, written by streams that write numbers without commas and new
  -- lines: `logToCSV` is the header and a line for each record, each ended, and the header and every
  -- line alike have 87 columns, which are 86 commas, and no new line inside.
  pub log_to_csv-AreRows :
      IsPlain show
      → (r : Record F) (log : List (Record F))
      → (log_to_csv show (r ∷ log) ≡ ended (header show ∷ lines_of show (r ∷ log)))
        × AreRows (header show ∷ lines_of show (r ∷ log))
  unfolding log_to_csv
  log_to_csv-AreRows plain r log = (
    line_end (csv_robot_state_header show ∷ comma ∷ csv_robot_command_header show ∷ [])
          (csv_lines show (r ∷ log))
        ∙ ap (λ t. header show ++ (endl ++ t)) (csv_lines-ended (r ∷ log)),
    (
      csv_robot_state_header-IsPart show plain
          ⊕ comma-IsPart
          ⊕ csv_robot_command_header-IsPart show plain
          ⊕ done,
      lines_of-AreRows plain (r ∷ log),
    ),
  )
