-- ===== src/Spi/Protocol.antt =====
-- simulation/spi/SPIProtocol.sv in SPI mode 0 (CPOL = CPHA = 0): one function per `always_ff` block,
-- each of which reads the registers as they were before the edge.
use risc_v_rv32i_multi_cycle.Prelude.{ℕ, ◌+◌, ◌-◌, ◌*◌, ◌%◌, ◌==◌, if◌then◌else◌, ltb}
use risc_v_rv32i_multi_cycle.Core.{Unpacked, update, flip, byte_bit}

-- `CLKS_PER_HALF_BIT`, as Top.sv sets it.
abbrev clks_per_half_bit : ℕ
clks_per_half_bit = 4

-- The registers of the module; `o_RX_Byte`, which is written bit by bit, as its bits.
pub record Protocol : Type 0 where
  pub tx_ready : ℕ
  pub spi_clk_edges : ℕ
  pub leading_edge : ℕ
  pub trailing_edge : ℕ
  pub r_spi_clk : ℕ
  pub spi_clk_count : ℕ
  pub tx_byte : ℕ
  pub r_tx_dv : ℕ
  pub spi_mosi : ℕ
  pub tx_bit_count : ℕ
  pub rx_byte : Unpacked
  pub rx_dv : ℕ
  pub rx_bit_count : ℕ
  pub spi_clk : ℕ

-- The registers under an active reset.
abbrev pub protocol_reset : Protocol → Protocol
protocol_reset p = record {
  tx_ready = 0;
  spi_clk_edges = 0;
  leading_edge = 0;
  trailing_edge = 0;
  r_spi_clk = 0;
  spi_clk_count = 0;
  tx_byte = 0;
  r_tx_dv = 0;
  spi_mosi = 0;
  tx_bit_count = 7;
  rx_byte = λ i. if ltb i 8 then 0 else p.rx_byte i;
  rx_dv = 0;
  rx_bit_count = 7;
  spi_clk = 0;
}

-- The block that generates the SPI clock; it counts in three bits.
abbrev clock_block : ℕ → Protocol → Protocol → Protocol
clock_block dv p n =
    let q = record n { leading_edge = 0; trailing_edge = 0 } in
    if dv == 1
    then record q { tx_ready = 0; spi_clk_edges = 16 }
    else if ltb 0 p.spi_clk_edges
    then (if p.spi_clk_count == clks_per_half_bit * 2 - 1
        then record q {
          tx_ready = 0;
          spi_clk_edges = p.spi_clk_edges - 1;
          trailing_edge = 1;
          spi_clk_count = 0;
          r_spi_clk = flip p.r_spi_clk;
        }
        else if p.spi_clk_count == clks_per_half_bit - 1
        then record q {
          tx_ready = 0;
          spi_clk_edges = p.spi_clk_edges - 1;
          leading_edge = 1;
          spi_clk_count = (p.spi_clk_count + 1) % 8;
          r_spi_clk = flip p.r_spi_clk;
        }
        else record q { tx_ready = 0; spi_clk_count = (p.spi_clk_count + 1) % 8 })
    else record q { tx_ready = 1 }

-- The block that keeps the byte.
abbrev byte_block : ℕ → ℕ → Protocol → Protocol → Protocol
byte_block byte dv p n =
    let q = record n { r_tx_dv = dv } in if dv == 1 then record q { tx_byte = byte } else q

-- The block that puts the bits of the byte on MOSI, the highest first.
abbrev mosi_block : Protocol → Protocol → Protocol
mosi_block p n =
    if p.tx_ready == 1
    then record n { tx_bit_count = 7 }
    else if p.r_tx_dv == 1
    then record n { spi_mosi = byte_bit p.tx_byte 7; tx_bit_count = 6 }
    else if p.trailing_edge == 1
    then record n {
      tx_bit_count = (p.tx_bit_count + 7) % 8;
      spi_mosi = byte_bit p.tx_byte p.tx_bit_count;
    }
    else n

-- The block that samples MISO.
abbrev miso_block : ℕ → Protocol → Protocol → Protocol
miso_block miso p n =
    let q = record n { rx_dv = 0 } in
    if p.tx_ready == 1
    then record q { rx_bit_count = 7 }
    else if p.leading_edge == 1
    then record q {
      rx_byte = update p.rx_byte p.rx_bit_count miso;
      rx_bit_count = (p.rx_bit_count + 7) % 8;
      rx_dv = if p.rx_bit_count == 0 then 1 else 0;
    }
    else q

-- All blocks at a rising edge of the clock; the last one delays the SPI clock.
abbrev pub protocol_edge : ℕ → ℕ → ℕ → Protocol → Protocol
protocol_edge byte dv miso p =
    miso_block miso p
      (mosi_block p (byte_block byte dv p (clock_block dv p (record p { spi_clk = p.r_spi_clk }))))
