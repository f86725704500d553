-- ===== src/Spi/Bench.antt =====
-- The program simulation/spi/SPI_tb.cpp.
use risc_v_rv32i_multi_cycle.Prelude.{
  ℕ, suc, ◌+◌, ◌%◌, ◌&&◌, not, List, [], ◌∷◌, ◌++◌, ◌==◌, if◌then◌else◌, Bytes, codes, Option, none,
  some, ◌>>=◌, pos, ltb,
}
use risc_v_rv32i_multi_cycle.Core.{flip}
use risc_v_rv32i_multi_cycle.Utils.{int_to_string}
use risc_v_rv32i_multi_cycle.TestBench.{cycles}
use risc_v_rv32i_multi_cycle.TestBench.Loops.{loop_until}
use risc_v_rv32i_multi_cycle.Spi.Master.{Top, top_eval}

-- `step`
abbrev spi_step : ℕ → Top → Top
spi_step time u =
    let u' = top_eval u in if suc time % 10 == 0 then record u' { r_clk = flip u'.r_clk } else u'

-- `assertReset`: so many rounds with the reset active.
abbrev spi_assert_reset : ℕ → ℕ → Top → Top
spi_assert_reset rounds time u =
    record (cycles spi_step [] 0 rounds time (record u { r_rst_l = 0 })) { r_rst_l = 1 }

-- `sendSingleByte`: the ports behind an event, or none where it answers false.
abbrev send_single_byte : Top → ℕ → ℕ → ℕ → ℕ → ℕ → Option Top
send_single_byte u byte clk p_clk p_tx_rdy edge_cnt =
    if edge_cnt == 0 && (p_clk == 0 && clk == 1)
    then some (record u { master_tx_byte = byte; master_tx_dv = 1 })
    else if edge_cnt == 1 && (p_clk == 0 && clk == 1)
    then some (record u { master_tx_dv = 0 })
    else if edge_cnt == 2 && (p_tx_rdy == 0 && u.master_tx_ready == 1)
    then some u
    else none

-- The local variables of `main`, and the design.
pub record Sending : Type 0 where
  pub time_step : ℕ
  pub edge_cnt : ℕ
  pub p_r_clk : ℕ
  pub p_tx_rdy : ℕ
  pub top : Top

abbrev event : Sending → Option Top → Sending
event s none = s
event s (some u) = record s { edge_cnt = s.edge_cnt + 1; top = u }

-- A round of the loops `while (edgeCnt < 3)`.
abbrev pub send_round : ℕ → Sending → Sending
send_round byte s =
    let s' = event s (send_single_byte s.top byte s.top.r_clk s.p_r_clk s.p_tx_rdy s.edge_cnt) in
    record s' {
      time_step = s'.time_step + 1;
      p_r_clk = s'.top.r_clk;
      p_tx_rdy = s'.top.master_tx_ready;
      top = spi_step s'.time_step s'.top;
    }

-- Such a loop.
unfoldable pub send_byte : ℕ → ℕ → Sending → Option Sending
unfolding loop_until
send_byte fuel byte s =
    loop_until (λ r. not (ltb r.edge_cnt 3)) (send_round byte) fuel (record s { edge_cnt = 0 })

-- The lines printed, the design after the first and the second byte and at the end.
pub record Sent : Type 0 where
  pub lines : List Bytes
  pub first : Top
  pub second : Top
  pub last : Top

-- The part of `main` before the first byte.
unfoldable pub spi_start : Top → Sending
unfolding cycles
spi_start u =
    let u0 = top_eval (record u { r_rst_l = 1; r_clk = 0 }) in
    record {
      time_step = 120;
      edge_cnt = 0;
      p_r_clk = 0;
      p_tx_rdy = u.master_tx_ready;
      top = spi_assert_reset 100 20 (cycles spi_step [] 0 19 1 u0);
    }

-- The rest of `main` behind the two loops.
unfoldable pub sent : Sending → Sending → Sent
unfolding cycles
sent s r = record {
  lines =
      codes "Setting up"
      ∷ (codes "timeStep: " ++ int_to_string (pos s.time_step))
      ∷ (codes "Edges detected: " ++ int_to_string (pos r.edge_cnt))
      ∷ codes "Finish TB."
      ∷ codes "Shutting down"
      ∷ [];
  first = s.top;
  second = r.top;
  last = cycles spi_step [] 0 100 r.time_step r.top;
}

-- `main` with two bytes to send.
unfoldable pub spi_program : ℕ → ℕ → ℕ → Top → Option Sent
unfolding spi_start send_byte
spi_program fuel b1 b2 u = do
  s ← send_byte fuel b1 (spi_start u)
  r ← send_byte fuel b2 s
  some (sent s r)

abbrev spi_main : ℕ → Top → Option Sent
spi_main fuel = spi_program fuel 0xC1 0xC2
