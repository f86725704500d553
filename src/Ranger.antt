-- ===== src/Ranger.antt =====
-- The programs of simulation/ranger_risc and simulation/ranger_microcode, RangerRisc_tb.cpp with loop.cpp
-- and misc.cpp, over the whole processor. The second has a longer duration and no memory dumps.
use risc_v_rv32i_multi_cycle.Prelude.{
  ℕ, zero, suc, ◌+◌, ◌-◌, Bool, true, false, List, [], ◌∷◌, ◌++◌, ◌==◌, if◌then◌else◌, Bytes, codes,
  pos,
}
use risc_v_rv32i_multi_cycle.Core.{Core, Unpacked, flip}
use risc_v_rv32i_multi_cycle.Utils.{int_to_string}
use risc_v_rv32i_multi_cycle.Pmmu.Bench.{hex}
use risc_v_rv32i_multi_cycle.Pmmu.Program.{dump_rows}
use risc_v_rv32i_multi_cycle.ResetSequence.{Resettable, Ran, time_text, after_dump, reset_sequence}
pub mod Lines

-- `dumpMem`
abbrev dump_memory : Unpacked → List Bytes
dump_memory m = codes "--------Top Mem-------" ∷ dump_rows m 0 200

module _ {H : Type 0} (eval : Core H → Core H) where
  -- The lines of the processor that the program drives.
  abbrev pub core_lines : Resettable (Core H)
  core_lines = record {
    eval = eval;
    turn_clock = λ d. record d { clk_i = flip d.clk_i };
    set_reset = λ v d. record d { reset_i = v };
    reset_line = λ d. d.reset_i;
  }

  -- The pulse on the interrupt line, where `IRQ_ENABLED` is 1.
  abbrev pub irq_move : Bool → ℕ → Core H → Core H
  irq_move false time d = d
  irq_move true time d =
      if time == 1202
      then record d { irq_i = 0 }
      else if time == 1205
      then record d { irq_i = 1 }
      else d

  -- So many rounds of `loop`.
  unfoldable pub loop_rounds : Bool → ℕ → ℕ → Core H → Ran (Core H)
  loop_rounds irq zero time d = record { lines = []; dumps = []; time_step = time; unit = d }
  loop_rounds irq (suc n) time d =
      let d' = eval (irq_move irq time (eval d)) in
      let r = loop_rounds irq n (suc time) (after_dump core_lines time d') in
      record r { dumps = d' ∷ r.dumps }

  -- `loop`, which runs while `timeStep <= baseTime + duration`.
  unfoldable pub ranger_loop : (ℕ → Bytes) → Bool → ℕ → ℕ → ℕ → Core H → Ran (Core H)
  unfolding loop_rounds
  ranger_loop number irq time base duration d =
      let r = loop_rounds irq (base + duration + 1 - time) time d in
      record r {
        lines =
            time_text number time
              (codes " to (" ++ number (base + duration) ++ codes ") Reset TB begin.")
            ∷ r.lines;
      }

  -- `main`, with the duration of the loop, and with or without `dumpMem`, which leaves `std::hex` on. The
  -- reset sequence has no duration.
  unfoldable pub ranger_program : Bool → ℕ → Bool → Core H → Ran (Core H)
  unfolding ranger_loop
  ranger_program dumps duration irq d =
      let number : (ℕ → Bytes) = if dumps then hex else λ t. int_to_string (pos t) in
      let d0 = eval (if irq then record d { irq_i = 1 } else d) in
      let r = reset_sequence core_lines number 1 1 0 d0 in
      let l = ranger_loop number irq r.time_step r.time_step duration r.unit in
      record {
        lines =
            codes "Setting up" ∷ codes "Time (0) " ∷ (if dumps then dump_memory d0.mem else [])
            ++ r.lines
            ++ (codes "--- Reset TB complete at " ++ number (r.time_step - 1) ++ codes " ---")
              ∷ l.lines
            ++ (if dumps then dump_memory l.unit.mem else [])
            ++ codes "Finish TB." ∷ codes "Shutting down" ∷ [];
        dumps = r.dumps ++ l.dumps;
        time_step = l.time_step;
        unit = l.unit;
      }

  -- `main` of simulation/ranger_risc and of simulation/ranger_microcode
  abbrev pub ranger_main : Bool → Core H → Ran (Core H)
  ranger_main = ranger_program true 5000

  abbrev pub microcode_main : Bool → Core H → Ran (Core H)
  microcode_main = ranger_program false 15000
