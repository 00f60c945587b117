-- ===== src/Logger/Flush.antt =====
-- The logger refines the history of what was logged since the last `flush`: the ring keeps the newest
-- entries, as many as it has slots, and `flush` returns them from the oldest on.
use Prim.Native.Nat.{min}
use native.Mathlib.Nat.{mod-eq_of_lt}
use native.Mathlib.Decide.{dec_lt}
use libfranka.Prelude.{
  ℕ, zero, suc, ◌+◌, ◌-◌, ◌%◌, ◌≤◌, ◌<◌, ◌≡◌, ◌∙◌, refl, sym, ap, List, [], true, false,
  append_assoc, append-nil, ◌∷◌, ◌++◌, map, Double, length, length-append, get_or, length-set,
  length-replicate, drop, arith, ◌==◌,
}
use libfranka.Interface.{WireCommand, empty_command}
use libfranka.RobotState.{RobotState, empty_robot_state}
use libfranka.Exceptions.{Record}
use libfranka.Logger.{Logger, log, new, record_at, flush_from, flush, convert_command}
use libfranka.Logger.Modulo.{mod_one_turn, mod_next, mod_unfilled}
use libfranka.Logger.History.{HoldsEnd, HoldsEnd-write, drop-step, drop_all}

-- What one call of `log` is given.
abbrev pub Entry : Type 0 → Type 0
Entry F = RobotState F × WireCommand F

module _ {F : Type 0} ⦃d : Double F⦄ where
  abbrev pub blank : Entry F
  blank = (empty_robot_state, empty_command)

  abbrev pub to_record : Entry F → Record F
  to_record x = record { state = x.0; command = convert_command x.1 }

  -- The ring after the calls of `log` since the last `flush`.
  pub record IsLog (l : Logger F) (history : List (Entry F)) : Type 0 where
    pub states_room : length l.states ≡ l.log_size
    pub commands_room : length l.commands ≡ l.log_size
    pub front : 0 < l.log_size → l.ring_front ≡ length history % l.log_size
    pub size : l.ring_size ≡ min l.log_size (length history)
    pub states_end : HoldsEnd (λ (x : Entry F). x.0) blank l.states l.log_size history
    pub commands_end : HoldsEnd (λ (x : Entry F). x.1) blank l.commands l.log_size history

  pub new-IsLog : (log_size : ℕ) → IsLog (new log_size) []
  unfolding new
  new-IsLog log_size = record {
    states_room = length-replicate log_size _;
    commands_room = length-replicate log_size _;
    front = λ h. omega arith;
    size = omega arith;
    states_end = λ k h t. elim h [ ];
    commands_end = λ k h t. elim h [ ];
  }

  log-IsLog_full :
      (l : Logger F) (x : Entry F) (history : List (Entry F))
      → 0 < l.log_size
      → IsLog l history
      → IsLog (log l x.0 x.1) (history ++ x ∷ [])
  unfolding log
  log-IsLog_full l x history pos h =
      let n = length history in
      let ready : (l.log_size == 0) ≡ false = ground arith in
      let grown = length-append history (x ∷ []) in
      let at : l.ring_front ≡ n % l.log_size = h.front pos in
      rw ready (record {
        states_room = length-set l.states l.ring_front x.0 ∙ h.states_room;
        commands_room = length-set l.commands l.ring_front x.1 ∙ h.commands_room;
        front = λ p.
            ap (λ r. (r + 1) % l.log_size) at
            ∙ mod_next n l.log_size
            ∙ ap (λ m. m % l.log_size) (sym (omega (arith, grown)));
        size = omega (arith, grown, h.size);
        states_end = rw at (
            HoldsEnd-write (λ (y : Entry F). y.0) blank x l.states l.log_size history pos
              h.states_room h.states_end);
        commands_end = rw at (
            HoldsEnd-write (λ (y : Entry F). y.1) blank x l.commands l.log_size history pos
              h.commands_room h.commands_end);
      })

  -- A logger with no slot keeps nothing and changes nothing.
  log-IsLog_empty :
      (l : Logger F) (x : Entry F) (history : List (Entry F))
      → l.log_size ≡ 0
      → IsLog l history
      → IsLog (log l x.0 x.1) (history ++ x ∷ [])
  unfolding log
  log-IsLog_empty l x history none_kept h =
      let skipped : (l.log_size == 0) ≡ true = ground arith in
      let grown = length-append history (x ∷ []) in
      rw skipped (record {
        states_room = h.states_room;
        commands_room = h.commands_room;
        front = λ p. absurd (omega arith);
        size = omega (arith, h.size);
        states_end = λ k below near. absurd (omega arith);
        commands_end = λ k below near. absurd (omega arith);
      })

  -- One call of `log` appends its entry to the history.
  pub log-IsLog :
      (l : Logger F) (x : Entry F) (history : List (Entry F))
      → IsLog l history
      → IsLog (log l x.0 x.1) (history ++ x ∷ [])
  log-IsLog l x history h = elim (dec_lt 0 l.log_size) [
    | yes pos ↦ log-IsLog_full l x history pos h
    | no nope ↦ log-IsLog_empty l x history (omega arith) h
  ]

  -- The newest entries, at most as many as there are slots.
  abbrev pub newest : ℕ → List (Entry F) → List (Entry F)
  newest cap history = drop (length history - cap) history

  -- The slot that the loop of `flush` reads at its index `i`.
  slot_read :
      (l : Logger F) (history : List (Entry F)) (i : ℕ)
      → IsLog l history
      → i < l.ring_size
      → (l.ring_front + i) % l.ring_size ≡ (length history - l.ring_size + i) % l.log_size
  slot_read l history i h below =
      let n = length history in
      let at : l.ring_front ≡ n % l.log_size = h.front (omega (arith, h.size)) in
      rw at (elim (dec_lt n l.log_size) [
        | yes part ↦
            let full : l.ring_size ≡ n = omega (arith, h.size) in
            rw full (
              mod_unfilled n l.log_size i part (omega arith)
              ∙ sym (mod-eq_of_lt (omega arith))
              ∙ ap (λ x. x % l.log_size) (omega arith))
        | no whole ↦
            let full : l.ring_size ≡ l.log_size = omega (arith, h.size) in
            rw full (mod_one_turn n l.log_size i (omega arith))
      ])

  record_at-newest :
      (l : Logger F) (history : List (Entry F)) (i : ℕ)
      → IsLog l history
      → i < l.ring_size
      → record_at l ((l.ring_front + i) % l.ring_size)
        ≡ to_record (get_or history (length history - l.ring_size + i) blank)
  unfolding record_at
  record_at-newest l history i h below =
      let k = length history - l.ring_size + i in
      let there : k < length history = omega (arith, h.size) in
      let near : length history ≤ k + l.log_size = omega (arith, h.size) in
      rw (slot_read l history i h below, h.states_end k there near, h.commands_end k there near)

  flush_from-newest :
      (l : Logger F) (history : List (Entry F)) (rounds i : ℕ)
      → IsLog l history
      → i + rounds ≡ l.ring_size
      → flush_from l rounds i ≡ map to_record (drop (length history - l.ring_size + i) history)
  unfolding flush_from
  flush_from-newest l history zero i h e =
      let end : length history - l.ring_size + i ≡ length history = omega (arith, h.size) in
      rw end (rw (drop_all history))
  flush_from-newest l history (suc rounds) i h e =
      let k = length history - l.ring_size + i in
      let next : length history - l.ring_size + (i + 1) ≡ suc k = omega arith in
      rw (drop-step history k blank (omega (arith, h.size))) (
        rw (
          record_at-newest l history i h (omega arith),
          flush_from-newest l history rounds (i + 1) h (omega arith),
          next,
        ))

  -- If the ring holds a history, `flush` returns its newest entries, as many as there are slots, from
  -- the oldest on, and leaves a ring that holds the empty history.
  pub flush-newest :
      (l : Logger F) (history : List (Entry F))
      → IsLog l history
      → ((flush l).0 ≡ map to_record (newest l.log_size history)) × IsLog (flush l).1 []
  unfolding flush
  flush-newest l history h = (
    flush_from-newest l history l.ring_size 0 h (omega arith)
        ∙ ap (λ k. map to_record (drop k history)) (omega (arith, h.size)),
    record {
      states_room = h.states_room;
      commands_room = h.commands_room;
      front = λ p. omega arith;
      size = omega arith;
      states_end = λ k below near. elim below [ ];
      commands_end = λ k below near. elim below [ ];
    },
  )

  -- The calls of `log` between two calls of `flush`.
  pub log_all : Logger F → List (Entry F) → Logger F
  log_all l [] = l
  log_all l (x ∷ xs) = log_all (log l x.0 x.1) xs

  log-log_size : (l : Logger F) (x : Entry F) → (log l x.0 x.1).log_size ≡ l.log_size
  unfolding log
  log-log_size l x = ground arith

  log_all-log_size : (l : Logger F) (xs : List (Entry F)) → (log_all l xs).log_size ≡ l.log_size
  unfolding log_all
  log_all-log_size l [] = refl
  log_all-log_size l (x ∷ xs) = log_all-log_size (log l x.0 x.1) xs ∙ log-log_size l x

  pub log_all-IsLog :
      (l : Logger F) (history xs : List (Entry F))
      → IsLog l history
      → IsLog (log_all l xs) (history ++ xs)
  unfolding log_all
  log_all-IsLog l history [] h = rw append-nil h
  log_all-IsLog l history (x ∷ xs) h =
      rw (append_assoc history (x ∷ []) xs) at
        (log_all-IsLog (log l x.0 x.1) (history ++ x ∷ []) xs (log-IsLog l x history h))

  -- From a ring that holds nothing, a series of calls of `log` and then `flush` give the newest
  -- entries of the series from the oldest on, as many as the ring has slots, and afterwards the ring
  -- holds nothing again and has the same number of slots.
  pub flush-log_all :
      (l : Logger F) (xs : List (Entry F))
      → IsLog l []
      → ((flush (log_all l xs)).0 ≡ map to_record (newest l.log_size xs))
        × IsLog (flush (log_all l xs)).1 []
        × ((flush (log_all l xs)).1.log_size ≡ l.log_size)
  unfolding flush
  flush-log_all l xs h =
      let (records, cleared) = flush-newest (log_all l xs) xs (log_all-IsLog l [] xs h) in
      let kept = log_all-log_size l xs in
      (records ∙ ap (λ n. map to_record (newest n xs)) kept, cleared, kept)
