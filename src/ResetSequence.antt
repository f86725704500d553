-- ===== src/ResetSequence.antt =====
-- The reset at the start of the test benches of whole designs: `reset_sequence` and `step` of
-- simulation/ranger_risc, ranger_microcode (the same text) and instruction_register. The design is a
-- parameter, with the lines that the C++ code drives.
use risc_v_rv32i_multi_cycle.Prelude.{
  ℕ, zero, suc, ◌+◌, ◌-◌, ◌%◌, ◌≡◌, List, [], ◌∷◌, ◌++◌, ◌==◌, leb, if◌then◌else◌, Bytes, codes,
}
pub mod Pulse

-- A design with a clock and a reset: `eval`, `clk_i ^= 1`, `reset_i = v` and `reset_i`.
pub record Resettable (D : Type 0) : Type 0 where
  pub eval : D → D
  pub turn_clock : D → D
  pub set_reset : ℕ → D → D
  pub reset_line : D → ℕ

-- `eval` and the clock leave the reset alone.
pub record ResettableLaws {D : Type 0} (c : Resettable D) : Type 0 where
  pub eval_lem : (d : D) → c.reset_line (c.eval d) ≡ c.reset_line d
  pub turn_lem : (d : D) → c.reset_line (c.turn_clock d) ≡ c.reset_line d
  pub set_lem : (v : ℕ) (d : D) → c.reset_line (c.set_reset v d) ≡ v

-- The lines printed, the designs dumped to the waveform, the time and the design at the end.
pub record Ran (D : Type 0) : Type 0 where
  pub lines : List Bytes
  pub dumps : List D
  pub time_step : ℕ
  pub unit : D

-- "(time) …", with the numbers as the stream prints them by then: `dumpMem` leaves `std::hex` on.
abbrev pub time_text : (ℕ → Bytes) → ℕ → Bytes → Bytes
time_text number t text = codes "(" ++ number t ++ codes ")" ++ text

module _ {D : Type 0} (c : Resettable D) where
  -- `step`, behind its `eval`, which the waveform shows.
  abbrev pub after_dump : ℕ → D → D
  after_dump time d = if suc time % 10 == 0 then c.turn_clock d else d

  -- So many steps, as `timeStep = step(timeStep, tb, top);` in a loop.
  unfoldable pub run_on : ℕ → ℕ → D → Ran D
  run_on zero time d = record { lines = []; dumps = []; time_step = time; unit = d }
  run_on (suc n) time d =
      let d' = c.eval d in
      let r = run_on n (suc time) (after_dump time d') in record r { dumps = d' ∷ r.dumps }

  -- `if (timeStep - 1 == baseTime) top->reset_i = 0;`
  abbrev pub lowered : ℕ → ℕ → D → D
  lowered base time d = if time == base + 1 then c.set_reset 0 d else d

  -- The loop of `reset_sequence`, with so many rounds to go before the one that ends it.
  unfoldable pub reset_rounds : (ℕ → Bytes) → ℕ → ℕ → ℕ → D → Ran D
  reset_rounds number base zero time d = record {
    lines = time_text number time (codes " End Reset state.") ∷ [];
    dumps = [];
    time_step = time;
    unit = c.set_reset 1 (lowered base time (c.eval d));
  }
  reset_rounds number base (suc n) time d =
      let d' = c.eval (lowered base time (c.eval d)) in
      let r = reset_rounds number base n (suc time) (after_dump time d') in
      record r { dumps = d' ∷ r.dumps }

  -- `reset_sequence` up to its last lines: the loop runs while `timeStep <= baseTime + duration`.
  unfoldable pub reset_sequence : (ℕ → Bytes) → ℕ → ℕ → ℕ → D → Ran D
  unfolding reset_rounds
  reset_sequence number time base duration d =
      let r =
        if leb time (base + duration)
        then reset_rounds number base (base + duration - time) time d
        else record { lines = []; dumps = []; time_step = time; unit = d } in
      record r {
        lines =
            time_text number time
              (codes " to (" ++ number (base + duration) ++ codes ") Reset TB begin.")
            ∷ r.lines;
      }
