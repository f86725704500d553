-- ===== src/Tests/Designs.antt =====
-- The theorems on the synchroniser, the shift register, and the test benches that reset a whole design.
use risc_v_rv32i_multi_cycle.Prelude.{
  ℕ, ◌+◌, ◌-◌, ◌≡◌, refl, true, [], ◌∷◌, ◌++◌, ◌==◌, ◌&&◌, if◌then◌else◌, map, replicate, take,
  drop, arith,
}
use risc_v_rv32i_multi_cycle.Alu.{bit}
use risc_v_rv32i_multi_cycle.Pmmu.Bench.{hex}
use risc_v_rv32i_multi_cycle.Cdc.{Cdc}
use risc_v_rv32i_multi_cycle.Cdc.Samples.{hold, hold_lem}
use risc_v_rv32i_multi_cycle.ShiftRegister.{ShiftRegister, shift_program}
use risc_v_rv32i_multi_cycle.ShiftRegister.Waveform.{
  shift_rest, periods, serial_bits, shift_program-serial_bits,
}
use risc_v_rv32i_multi_cycle.ResetSequence.{ResettableLaws, reset_sequence}
use risc_v_rv32i_multi_cycle.ResetSequence.Pulse.{reset_sequence_lem}
use risc_v_rv32i_multi_cycle.Ranger.{ranger_program}
use risc_v_rv32i_multi_cycle.Ranger.Lines.{irqs, ranger_program_lem}
use risc_v_rv32i_multi_cycle.IrModule.{IrModule, States, ir_lines, checked_reset, ir_main}
use risc_v_rv32i_multi_cycle.IrModule.Verdict.{passes, ir_main_lem}
use risc_v_rv32i_multi_cycle.Tests.Values.{core_at, turn, turn-KeepsInputs}

abbrev synchroniser : Cdc
synchroniser = record {
  sys_clk_i = 0;
  async_i = 0;
  sync_o = 1;
  rising_o = 0;
  falling_o = 0;
  last_clk = 1;
  async_r = 6;
}

hold_lem_example :
    let v = hold (1 ∷ 0 ∷ 0 ∷ 1 ∷ 1 ∷ []) 3 synchroniser in
    (v.sync_o ≡ 1) × (v.rising_o ≡ bit (0 == 0 && 1 == 1)) × (v.falling_o ≡ bit (0 == 1 && 1 == 0))
hold_lem_example =
    hold_lem (1 ∷ 0 ∷ []) 3 0 1 1 synchroniser (omega arith) (omega arith) (omega arith)

abbrev shifter : ShiftRegister
shifter = record {
  clk = 0;
  load = 0;
  reset = 0;
  shift = 0;
  data_in = 7;
  data_out = 1;
  last_clk = 0;
  q = 200;
}

shift_program-serial_bits_example :
    let port = (shift_program 0xA3 0xB4 (shift_rest shifter)).port in
    (take 160 (drop 80 port) ≡ periods (serial_bits 0xA3))
    × (take 160 (drop 400 port) ≡ periods (serial_bits 0xB4))
shift_program-serial_bits_example =
    shift_program-serial_bits 0xA3 0xB4 shifter (omega arith) (omega arith)

-- A design that does nothing but count its evaluations.
abbrev counting : IrModule ℕ → IrModule ℕ
counting u = record u { hidden = u.hidden + 1 }

abbrev states : States
states = record { vector0 = 1; vector1 = 2; fetch = 3 }

abbrev ir_module : IrModule ℕ
ir_module = record {
  clk_i = 0;
  reset_i = 1;
  mem_busy_i = 1;
  ir_i = 9;
  state = 0;
  vector_state = 1;
  next_vector_state = 2;
  reset_complete = 0;
  ready = 0;
  cm_to_ir_ld = 0;
  ir_out = 0;
  mem = λ i. i;
  hidden = 0;
}

counting-laws : ResettableLaws (ir_lines counting states)
counting-laws = record { eval_lem = λ d. refl; turn_lem = λ d. refl; set_lem = λ v d. refl }

reset_sequence_lem_example :
    let r = reset_sequence (ir_lines counting states) hex 0 10 45 ir_module in
    (map (λ d. d.reset_i) r.dumps ≡ (
      if 45 == 0 then replicate (10 - 0) 1 else replicate (10 + 1 - 0) 1 ++ replicate (45 - 1) 0))
    × (r.time_step ≡ 10 + 45)
    × (r.unit.reset_i ≡ 1)
reset_sequence_lem_example =
    reset_sequence_lem (ir_lines counting states) counting-laws hex 0 10 45 1 ir_module
      (omega arith) refl

ir_main_lem_example :
    let s = checked_reset counting states 0 10 45 (counting ir_module) in
    let o = ir_main counting states ir_module in
    (s.time_step ≡ 55)
    × (o.code ≡ (if passes counting states s.unit then 0 else 1))
    × (o.time_step ≡ (if passes counting states s.unit then 231 else 55))
ir_main_lem_example = ir_main_lem counting states ir_module counting-laws

ranger_program_lem_example :
    let r = ranger_program turn true 5000 true (core_at 1 19) in
    (map (λ c. c.irq_i) r.dumps ≡ irqs (5000 + 1) 1)
    × (map (λ c. c.reset_i) r.dumps ≡ replicate (5000 + 1) 1)
    × (r.time_step ≡ 5000 + 2)
ranger_program_lem_example = ranger_program_lem turn turn-KeepsInputs true 5000 (core_at 1 19)
