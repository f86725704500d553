-- ===== src/Alu/Bench.antt =====
-- simulation/alu: the test benches ALU_tb.cpp and ALU_8bit_tb.cpp, with misc.cpp. What they show is
-- the waveform, one dump of the ports to a time step.
use risc_v_rv32i_multi_cycle.Prelude.{
  ℕ, zero, suc, ◌-◌, ◌%◌, ◌^◌, List, [], ◌∷◌, ◌++◌, ◌==◌, if◌then◌else◌, Bytes, codes,
}
use risc_v_rv32i_multi_cycle.TypeEnums.{AluOp, add, sub, xor, or, and, sll, srl, sra, slt, sltu}
use risc_v_rv32i_multi_cycle.Alu.{Alu, alu_eval}

-- The operands and the operation that are set at a time.
pub record Stimulus : Type 0 where
  pub at : ℕ
  pub a : ℕ
  pub b : ℕ
  pub op : AluOp

-- The ports have so many bits; a wider or negative operand wraps.
abbrev apply_stimulus : ℕ → Stimulus → Alu → Alu
apply_stimulus width s u = record u {
  a_i = s.a % 2 ^ width;
  b_i = s.b % 2 ^ width;
  func_op_i = s.op;
}

abbrev stimulate : ℕ → List Stimulus → ℕ → Alu → Alu
stimulate width [] time u = u
stimulate width (s ∷ ss) time u =
    stimulate width ss time (if time == s.at then apply_stimulus width s u else u)

-- The dumps of so many rounds from a time on: the stimuli, and then `step`, which evaluates, dumps and
-- counts.
unfoldable pub waveform : ℕ → List Stimulus → ℕ → ℕ → Alu → List Alu
waveform width ss zero time u = []
waveform width ss (suc n) time u =
    let u' = alu_eval width (stimulate width ss time u) in u' ∷ waveform width ss n (suc time) u'

-- `-3` as an operand
abbrev pub minus : ℕ → ℕ
minus n = 2 ^ 32 - n

abbrev arithmetic_stimuli : List Stimulus
arithmetic_stimuli =
    record { at = 10; a = 5; b = 5; op = add }
    ∷ record { at = 20; a = 5; b = 2; op = sub }
    ∷ record { at = 30; a = 5; b = 2; op = and }
    ∷ record { at = 40; a = 7; b = 2; op = and }
    ∷ record { at = 50; a = 5; b = 2; op = or }
    ∷ record { at = 60; a = 5; b = 2; op = xor }
    ∷ record { at = 70; a = 5; b = 3; op = xor }
    ∷ []

abbrev comparison_stimuli : List Stimulus
comparison_stimuli =
    record { at = 80; a = 3; b = 5; op = sltu }
    ∷ record { at = 90; a = 5; b = 3; op = sltu }
    ∷ record { at = 100; a = minus 3; b = 5; op = slt }
    ∷ record { at = 110; a = 5; b = minus 3; op = slt }
    ∷ []

abbrev shift_stimuli : List Stimulus
shift_stimuli =
    record { at = 120; a = 0x90; b = 2; op = sll }
    ∷ record { at = 130; a = 0x90; b = 2; op = srl }
    ∷ record { at = 140; a = 0x90; b = 2; op = sra }
    ∷ record { at = 150; a = 0x80000090; b = 2; op = sra }
    ∷ []

abbrev flag_stimuli : List Stimulus
flag_stimuli =
    record { at = 10; a = 5; b = 5; op = add }
    ∷ record { at = 20; a = 100; b = 80; op = sub }
    ∷ record { at = 30; a = 80; b = 100; op = sub }
    ∷ record { at = 40; a = 80; b = 176; op = sub }
    ∷ record { at = 50; a = 208; b = 112; op = sub }
    ∷ record { at = 60; a = 208; b = 208; op = sub }
    ∷ record { at = 70; a = 127; b = 127; op = add }
    ∷ record { at = 80; a = 127; b = 1; op = add }
    ∷ record { at = 90; a = 128; b = 255; op = add }
    ∷ []

-- A program's lines, and its waveform.
pub record Shown : Type 0 where
  pub lines : List Bytes
  pub dumps : List Alu

abbrev alu_program : ℕ → List Stimulus → Alu → Shown
alu_program width ss u = record {
  lines = codes "Setting up" ∷ codes "Time (0) " ∷ codes "Finish TB." ∷ codes "Shutting down" ∷ [];
  dumps = waveform width ss 200 0 u;
}

-- `main` of ALU_tb.cpp, for the ALU of the processor, and of ALU_8bit_tb.cpp.
abbrev pub alu_main : Alu → Shown
alu_main = alu_program 32 (arithmetic_stimuli ++ comparison_stimuli ++ shift_stimuli)

abbrev pub alu_8bit_main : Alu → Shown
alu_8bit_main = alu_program 8 flag_stimuli
