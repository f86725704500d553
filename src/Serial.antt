-- ===== src/Serial.antt =====
-- The test benches of the serial links that are generated designs with clocks of their own:
-- simulation/spi_sync, spi_sync2 (the same text), spi_sync3 and spi_sync4. `eval` is a parameter; what
-- the programs see of a design is its ports.
use risc_v_rv32i_multi_cycle.Prelude.{
  ℕ, suc, ◌+◌, ◌*◌, ◌%◌, ◌<◌, ◌≡◌, List, [], ◌∷◌, ◌++◌, ◌==◌, if◌then◌else◌, Bytes, codes, pos,
}
use risc_v_rv32i_multi_cycle.Core.{flip}
use risc_v_rv32i_multi_cycle.Utils.{int_to_string}
use risc_v_rv32i_multi_cycle.TestBench.{cycles}
pub mod Handshake
pub mod Request
pub mod Exchange
pub mod Timed
pub mod Clock

-- The ports of Top and Top_MasterSlave, and a rest that no C++ file reads. `send_i_n` is `send` in
-- spi_sync4.
pub record Link (H : Type 0) : Type 0 where
  pub pll_clk_i : ℕ
  pub rst_i_n : ℕ
  pub send_i_n : ℕ
  pub byte_to_slave : ℕ
  pub byte_to_master : ℕ
  pub ready : ℕ
  pub byte_sent : ℕ
  pub hidden : H

-- The lines printed, the time at the end, and the design.
pub record Linked (H : Type 0) : Type 0 where
  pub lines : List Bytes
  pub time_step : ℕ
  pub link : Link H

-- `std::cout << text << timeStep << std::endl`
abbrev pub time_line : Bytes → ℕ → Bytes
time_line text t = text ++ int_to_string (pos t)

module _ {H : Type 0} (eval : Link H → Link H) where
  -- `step`
  abbrev pub link_step : ℕ → Link H → Link H
  link_step time u =
      let u' = eval u in
      if suc time % 10 == 0 then record u' { pll_clk_i = flip u'.pll_clk_i } else u'

  -- So many steps from a time on: `duration = n + timeStep; while (timeStep < duration) …`.
  unfoldable pub link_steps : ℕ → ℕ → Link H → Link H
  unfolding cycles
  link_steps n time u = cycles link_step [] 0 n time u

  -- `assertReset`
  unfoldable pub link_reset : ℕ → ℕ → Link H → Link H
  unfolding link_steps
  link_reset n time u = record (link_steps n time (record u { rst_i_n = 0 })) { rst_i_n = 1 }

  -- The part of `main` up to the end of the reset at time 501, with `send_i_n` at 1.
  unfoldable pub link_start : Link H → Link H
  unfolding link_reset
  link_start u =
      let u0 = eval (record u { rst_i_n = 1; pll_clk_i = 0; send_i_n = 1 }) in
      link_reset 500 1 (link_step 0 u0)
