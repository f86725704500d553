-- ===== src/SpiAlt.antt =====
-- The program simulation/spi_alt/SPI_tb.cpp, over its design, a parameter.
use risc_v_rv32i_multi_cycle.Prelude.{ℕ, suc, ◌+◌, List, [], ◌∷◌, ◌++◌, Bytes, codes}
use risc_v_rv32i_multi_cycle.Core.{flip}
use risc_v_rv32i_multi_cycle.ResetSequence.{Resettable, Ran, run_on}
pub mod Waveform

-- The ports of Top that the program drives, and a rest that it does not read.
pub record SpiAlt (H : Type 0) : Type 0 where
  pub pll_clk_i : ℕ
  pub rst_i_n : ℕ
  pub spi_cs_i_n : ℕ
  pub byte_to_slave : ℕ
  pub hidden : H

abbrev pub select_byte : {H : Type 0} → SpiAlt H → SpiAlt H
select_byte u = record u { byte_to_slave = 0xC5; spi_cs_i_n = 0 }

abbrev pub deselect : {H : Type 0} → SpiAlt H → SpiAlt H
deselect u = record u { spi_cs_i_n = 1 }

module _ {H : Type 0} (eval : SpiAlt H → SpiAlt H) where
  abbrev pub alt_lines : Resettable (SpiAlt H)
  alt_lines = record {
    eval = eval;
    turn_clock = λ u. record u { pll_clk_i = flip u.pll_clk_i };
    set_reset = λ v u. record u { rst_i_n = v };
    reset_line = λ u. u.rst_i_n;
  }

  -- `assertReset`, for so many steps.
  abbrev pub alt_assert_reset : ℕ → Ran (SpiAlt H) → Ran (SpiAlt H)
  alt_assert_reset n r =
      let s = run_on alt_lines n r.time_step (record r.unit { rst_i_n = 0 }) in
      record s { dumps = r.dumps ++ s.dumps; unit = record s.unit { rst_i_n = 1 } }

  -- So many steps behind a run, with a change of the ports before them.
  abbrev pub alt_steps : ℕ → (SpiAlt H → SpiAlt H) → Ran (SpiAlt H) → Ran (SpiAlt H)
  alt_steps n f r =
      let s = run_on alt_lines n r.time_step (f r.unit) in record s { dumps = r.dumps ++ s.dumps }

  -- `main`: a step, the reset to time 101, the chip selected to 1710, and 501 steps more. `edgeCnt` is
  -- set to 0 and never counted.
  unfoldable pub alt_main : SpiAlt H → Ran (SpiAlt H)
  unfolding run_on
  alt_main u =
      let u0 = eval (record u { rst_i_n = 1; pll_clk_i = 0; spi_cs_i_n = 1 }) in
      let r1 = alt_assert_reset 100 (run_on alt_lines 1 0 u0) in
      let r2 = alt_steps 1609 select_byte r1 in
      let r3 = alt_steps 500 (λ v. v) (alt_steps 1 deselect r2) in
      record r3 {
        lines =
            codes "Setting up"
            ∷ codes "Edges detected: 0"
            ∷ codes "Finish TB."
            ∷ codes "Shutting down"
            ∷ [];
      }
