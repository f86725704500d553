-- ===== src/Serial/Timed.antt =====
-- The programs that run for fixed times: simulation/spi_sync4/SPI_tb_manual.cpp, spi_sync4/SPI_tb.cpp
-- (and spi_sync5, the same text), spi_slave/SPI_tb.cpp (and spi_sync6, 7 and 8), uart/UART_tb.cpp, and
-- uart_tx_multibyte/UART_tb.cpp (and uart_tx_rx_multibyte).
use risc_v_rv32i_multi_cycle.Prelude.{
  ℕ, suc, ◌+◌, ◌*◌, ◌%◌, List, [], ◌∷◌, ◌==◌, if◌then◌else◌, Bytes, codes,
}
use risc_v_rv32i_multi_cycle.Core.{flip}
use risc_v_rv32i_multi_cycle.TestBench.{cycles}
use risc_v_rv32i_multi_cycle.Serial.{
  Link, Linked, time_line, link_step, link_steps, link_reset, link_start,
}
use risc_v_rv32i_multi_cycle.Serial.Handshake.{sending, with_bytes, finished}

module _ {H : Type 0} (eval : Link H → Link H) where
  -- `main` of SPI_tb_manual.cpp: the signal is low from time 576 to 19626, and the bytes change at 6976
  -- and 13326.
  unfoldable pub manual_main : Link H → Linked H
  unfolding link_start link_steps
  manual_main u =
      let u1 = link_steps eval 75 501 (with_bytes 0xA1 0xE4 (link_start eval u)) in
      let u2 = link_steps eval 6400 576 (sending 0 u1) in
      let u3 = link_steps eval 50 13276 (link_steps eval 6300 6976 (with_bytes 0x2A 0x99 u2)) in
      let u4 = link_steps eval 6300 13326 (with_bytes 0x32 0xC9 u3) in
      record {
        lines = codes "Setting up" ∷ finished (time_line (codes "timeStep: ") 501 ∷ []);
        time_step = 21126;
        link = link_steps eval 1500 19626 (sending 1 u4);
      }

  -- `main` of the programs that only reset the design, at time 26, and run it for a duration: 15000 in
  -- spi_sync4, 20000 in spi_slave.
  unfoldable pub free_main : ℕ → Link H → Linked H
  unfolding link_reset link_steps
  free_main duration u =
      let u0 = eval (record u { rst_i_n = 1; pll_clk_i = 0 }) in
      let u1 = link_reset eval 100 26 (link_steps eval 25 1 (link_step eval 0 u0)) in
      record {
        lines = codes "Setting up" ∷ finished (time_line (codes "timeStep: ") 126 ∷ []);
        time_step = 126 + duration;
        link = link_steps eval duration 126 u1;
      }

  abbrev pub sync4_main : Link H → Linked H
  sync4_main = free_main 15000

  abbrev pub slave_main : Link H → Linked H
  slave_main = free_main 20000

-- The one port of the designs of uart, and a rest.
pub record Uart (H : Type 0) : Type 0 where
  pub clock : ℕ
  pub hidden : H

-- The lines printed, the time at the end, and the design.
pub record UartRun (H : Type 0) : Type 0 where
  pub lines : List Bytes
  pub time_step : ℕ
  pub uart : Uart H

module _ {H : Type 0} (eval : Uart H → Uart H) where
  -- `step` of uart: a clock period is forty time steps.
  abbrev pub uart_step : ℕ → Uart H → Uart H
  uart_step time u =
      let u' = eval u in
      if suc time % (1 * 20) == 0 then record u' { clock = flip u'.clock } else u'

  -- `main`, for so many bits of 8680 time steps each.
  unfoldable pub uart_program : ℕ → Uart H → UartRun H
  unfolding cycles
  uart_program bits u =
      let u0 = uart_step 0 (eval (record u { clock = 0 })) in
      let u1 = cycles uart_step [] 0 25 1 u0 in
      record {
        lines = codes "Setting up" ∷ finished [];
        time_step = 26 + 8680 * bits;
        uart = cycles uart_step [] 0 (8680 * bits) 26 u1;
      }

  -- Eleven bits, or four times as many.
  abbrev pub uart_main : Uart H → UartRun H
  uart_main = uart_program (1 + 8 + 1 + 1)

  abbrev pub uart_multibyte_main : Uart H → UartRun H
  uart_multibyte_main = uart_program ((1 + 8 + 1 + 1) * 4)
