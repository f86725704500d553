-- ===== src/Tests/Units.antt =====
-- The theorems on the register file, the immediate operands and the clock divider, at concrete values.
use risc_v_rv32i_multi_cycle.Prelude.{ℕ, ◌∷◌, ◌≡◌, refl, arith, if◌then◌else◌, ◌==◌, [], ◌*◌}
use risc_v_rv32i_multi_cycle.RegisterFile.{RegisterFile}
use risc_v_rv32i_multi_cycle.RegisterFile.Accesses.{Access, file_cycles, latest, file_cycles_lem}
use risc_v_rv32i_multi_cycle.TestBench.{cycles}
use risc_v_rv32i_multi_cycle.Counter.{counter_step}
use risc_v_rv32i_multi_cycle.Counter.Division.{at_zero, flips, cycles-flips}
use risc_v_rv32i_multi_cycle.Immediate.{immediate}
use risc_v_rv32i_multi_cycle.Immediate.Formats.{
  Fields, Fit, branch, assemble, meant, immediate-assemble,
}

-- The register file as it is switched on.
abbrev switched_on : RegisterFile
switched_on = record {
  clk_i = 0;
  reg_we_i = 1;
  data_i = 0;
  reg_dst_i = 0;
  reg_src_a_i = 0;
  reg_src_b_i = 0;
  src_a_o = 0;
  src_b_o = 0;
  last_clk = 0;
  bank = λ i. i * i;
}

-- Register 9 is written, then register 0, and 9 is read.
abbrev zero_written : Access
zero_written = record { we = 0; dst = 0; word = 7; src_a = 9; src_b = 0 }

abbrev nine_written : Access
nine_written = record { we = 0; dst = 9; word = 1234; src_a = 0; src_b = 9 }

file_cycles_lem_example :
    ((i : ℕ)
      → (file_cycles (zero_written ∷ nine_written ∷ []) switched_on).bank i
        ≡ (if i == 0 then 0 * 0 else latest (zero_written ∷ nine_written ∷ []) (λ j. j * j) i))
    × ((file_cycles (zero_written ∷ nine_written ∷ []) switched_on).src_a_o
        ≡ (if 9 == 0 then 0 else latest (zero_written ∷ nine_written ∷ []) (λ j. j * j) 9))
    × ((file_cycles (zero_written ∷ nine_written ∷ []) switched_on).src_b_o
        ≡ (if 0 == 0 then 0 else latest (zero_written ∷ nine_written ∷ []) (λ j. j * j) 0))
file_cycles_lem_example = file_cycles_lem zero_written (nine_written ∷ []) switched_on

abbrev fields : Fields
fields = record { rd = 0; rs1 = 19; rs2 = 10; funct3 = 1 }

fields-Fit : Fit fields
fields-Fit = record { rd = omega arith; rs1 = omega arith; rs2 = omega arith; funct3 = omega arith }

-- A branch 16 bytes back.
immediate-assemble_example : immediate (assemble branch fields 8176) ≡ meant branch 8176
immediate-assemble_example = immediate-assemble branch fields 8176 fields-Fit (omega arith, refl)

cycles-flips_example : cycles counter_step [] 0 420 10 (at_zero 0) ≡ at_zero (flips 7 0)
cycles-flips_example = cycles-flips 7 0
