-- ===== src/Spi/Master.antt =====
-- simulation/spi/SPIMaster.sv, the chip select state machine around the protocol, and Top.sv, which
-- leads MOSI back to MISO: the design that SPI_tb.cpp steps.
use risc_v_rv32i_multi_cycle.Prelude.{
  ℕ, ◌+◌, ◌-◌, ◌%◌, ◌&&◌, ◌||◌, ◌==◌, if◌then◌else◌, ltb, Bool, not,
}
use risc_v_rv32i_multi_cycle.Spi.Protocol.{Protocol, protocol_reset, protocol_edge}

-- `r_SM_CS`
abbrev pub idle : ℕ
idle = 0

abbrev transfer : ℕ
transfer = 1

abbrev pub cs_inactive : ℕ
cs_inactive = 2

abbrev cs_inactive_clks : ℕ
cs_inactive_clks = 10

-- The registers of the module and of the protocol inside it.
pub record Master : Type 0 where
  pub sm_cs : ℕ
  pub cs_n : ℕ
  pub tx_count : ℕ
  pub cs_inactive_count : ℕ
  pub rx_count : ℕ
  pub protocol : Protocol

-- The state machine under an active reset.
abbrev select_reset : Master → Master
select_reset m = record m {
  sm_cs = idle;
  cs_n = 1;
  tx_count = 0;
  cs_inactive_count = cs_inactive_clks;
}

-- The state machine at a rising edge of the clock: `tx_count` has two bits, the other counter four.
abbrev select_block : ℕ → ℕ → Master → Master → Master
select_block count dv m n =
    if m.sm_cs == idle
    then (if m.cs_n == 1 && dv == 1
        then record n { tx_count = (count + 3) % 4; cs_n = 0; sm_cs = transfer }
        else n)
    else if m.sm_cs == transfer
    then (if m.protocol.tx_ready == 1
        then (if ltb 0 m.tx_count
            then (if dv == 1 then record n { tx_count = m.tx_count - 1 } else n)
            else record n { cs_n = 1; cs_inactive_count = cs_inactive_clks; sm_cs = cs_inactive })
        else n)
    else if m.sm_cs == cs_inactive
    then (if ltb 0 m.cs_inactive_count
        then record n { cs_inactive_count = m.cs_inactive_count - 1 }
        else record n { sm_cs = idle })
    else record n { cs_n = 1; sm_cs = idle }

-- The count of the bytes received, which has no reset.
abbrev rx_count_block : Master → Master → Master
rx_count_block m n =
    if m.cs_n == 1
    then record n { rx_count = 0 }
    else if m.protocol.rx_dv == 1
    then record n { rx_count = (m.rx_count + 1) % 4 }
    else n

-- The ports of Top, the clock and the reset that the last `eval` saw, and the master.
pub record Top : Type 0 where
  pub r_clk : ℕ
  pub r_rst_l : ℕ
  pub master_tx_byte : ℕ
  pub master_tx_dv : ℕ
  pub master_tx_count : ℕ
  pub master_tx_ready : ℕ
  pub spi_cs_n : ℕ
  pub last_clk : ℕ
  pub last_rst_l : ℕ
  pub master : Master

-- The blocks with a reset: they run at a rising edge of the clock and at a falling one of the reset.
abbrev clocked : Top → Master → Master → Master
clocked u m n =
    if u.r_rst_l == 0
    then select_reset (record n { protocol = protocol_reset m.protocol })
    else select_block u.master_tx_count u.master_tx_dv m (record n {
      protocol = protocol_edge u.master_tx_byte u.master_tx_dv m.protocol.spi_mosi m.protocol;
    })

abbrev clk_rises : Top → Bool
clk_rises u = u.last_clk == 0 && u.r_clk == 1

abbrev rst_falls : Top → Bool
rst_falls u = u.last_rst_l == 1 && u.r_rst_l == 0

abbrev pub triggered : Top → Master
triggered u =
    let n = if clk_rises u then rx_count_block u.master u.master else u.master in
    if clk_rises u || rst_falls u then clocked u u.master n else n

-- `o_TX_Ready`
abbrev ready_line : Top → Master → ℕ
ready_line u m =
    if (m.sm_cs == idle || m.sm_cs == transfer && m.protocol.tx_ready == 1 && ltb 0 m.tx_count)
      && not (u.master_tx_dv == 1)
    then 1
    else 0

abbrev pub top_eval : Top → Top
top_eval u =
    let m = triggered u in
    record u {
      master = m;
      master_tx_ready = ready_line u m;
      spi_cs_n = m.cs_n;
      last_clk = u.r_clk;
      last_rst_l = u.r_rst_l;
    }
