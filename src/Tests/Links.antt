-- ===== src/Tests/Links.antt =====
-- The theorems on the serial links, over small designs.
use risc_v_rv32i_multi_cycle.Prelude.{
  ℕ, ◌+◌, ◌≤◌, ◌≡◌, ◌<◌, ◌/◌, ◌%◌, false, refl, ◌↔◌, none, some, ◌==◌, ◌||◌, if◌then◌else◌, arith,
}
use risc_v_rv32i_multi_cycle.Alu.{bit}
use risc_v_rv32i_multi_cycle.TestBench.Loops.{loop_until}
use risc_v_rv32i_multi_cycle.TestBench.Waits.{Wait}
use risc_v_rv32i_multi_cycle.Spi.Master.{Top}
use risc_v_rv32i_multi_cycle.Spi.Bench.{Sent, spi_program}
use risc_v_rv32i_multi_cycle.Spi.RoundTrip.{packed, spi_rest, spi_program-echo}
use risc_v_rv32i_multi_cycle.Serial.{Link, Linked}
use risc_v_rv32i_multi_cycle.Serial.Handshake.{request, ready_falls, sync3_main}
use risc_v_rv32i_multi_cycle.Serial.Timed.{manual_main, free_main}
use risc_v_rv32i_multi_cycle.Serial.Clock.{links_clock}
use risc_v_rv32i_multi_cycle.Serial.Request.{IsFirst, falls_at, requested, request_lem}
use risc_v_rv32i_multi_cycle.Serial.Exchange.{Exchange, left_at, ready_last, sync3_main_lem}

-- The SPI master as it is switched on.
abbrev switched_on : Top
switched_on = record {
  r_clk = 0;
  r_rst_l = 0;
  master_tx_byte = 0;
  master_tx_dv = 0;
  master_tx_count = 0;
  master_tx_ready = 0;
  spi_cs_n = 0;
  last_clk = 0;
  last_rst_l = 0;
  master = record {
    sm_cs = 3;
    cs_n = 0;
    tx_count = 1;
    cs_inactive_count = 7;
    rx_count = 2;
    protocol = record {
      tx_ready = 1;
      spi_clk_edges = 9;
      leading_edge = 0;
      trailing_edge = 1;
      r_spi_clk = 1;
      spi_clk_count = 5;
      tx_byte = 33;
      r_tx_dv = 1;
      spi_mosi = 0;
      tx_bit_count = 2;
      rx_byte = λ i. 1;
      rx_dv = 0;
      rx_bit_count = 3;
      spi_clk = 1;
    };
  };
}

spi_program-echo_example :
    (o : Sent) × (spi_program 2500 0xC1 0xC2 (spi_rest 2 switched_on) ≡ some o)
    × (packed o.first.master.protocol.rx_byte ≡ 0xC1)
    × (packed o.second.master.protocol.rx_byte ≡ 0xC2)
    × (o.first.spi_cs_n ≡ bit (2 == 1))
    × (o.last.spi_cs_n ≡ bit (2 == 1 || 2 == 2))
spi_program-echo_example =
    spi_program-echo 2500 0xC1 0xC2 2 switched_on (omega arith) (omega arith) (omega arith)
      (omega arith)

-- A link whose `ready` follows the signal.
abbrev follower : Link ℕ → Link ℕ
follower u = record u { ready = if u.send_i_n == 0 then 0 else 1; hidden = u.hidden + 1 }

abbrev link : Link ℕ
link = record {
  pll_clk_i = 0;
  rst_i_n = 1;
  send_i_n = 1;
  byte_to_slave = 0;
  byte_to_master = 0;
  ready = 0;
  byte_sent = 0;
  hidden = 0;
}

-- What spi_sync3 leaves: its waits last 0, 1, 1, 1 and 1 steps.
abbrev followed : Linked ℕ
followed = left_at follower 603 604 605 (ready_last follower link 0 1 1 1 1).unit

sync3_main_runs : sync3_main follower 4 link ≡ some followed
unfolding sync3_main request ready_falls loop_until
sync3_main_runs = refl

sync3_main_lem_example : (sync3_main follower 4 link ≡ some followed) ↔ (
    (a b c d e : ℕ) × Exchange follower 4 link a b c d e
    × (0 < b)
    × (0 < d)
    × (left_at follower
          (601 + (a + b + c))
          (601 + (a + b + c + d))
          (601 + (a + b + c + d + e))
          (ready_last follower link a b c d e).unit
        ≡ followed))
sync3_main_lem_example = sync3_main_lem follower 4 link followed

-- The first wait of spi_sync, with `ready` low.
abbrev not_ready : Wait (Link ℕ)
not_ready = record { time_step = 601; before = 1; unit = link }

request_lem_example :
    ((r : Wait (Link ℕ))
      → (request follower 4 not_ready ≡ some r) ↔ (
          (k : ℕ) × IsFirst (falls_at follower not_ready) 4 k
          × (r ≡ requested follower not_ready k)))
    × ((request follower 4 not_ready ≡ none)
        ↔ ((j : ℕ) → j ≤ 4 → falls_at follower not_ready j ≡ false))
request_lem_example = request_lem follower 4 not_ready

-- There the request is lost: the loop ends at once.
not_ready_lost : request follower 4 not_ready ≡ some not_ready
unfolding request ready_falls loop_until
not_ready_lost = refl

links_clock_example :
    ((manual_main follower link).link.pll_clk_i ≡ (manual_main follower link).time_step / 10 % 2)
    × ((free_main follower 33 link).link.pll_clk_i
        ≡ (free_main follower 33 link).time_step / 10 % 2)
links_clock_example = links_clock follower (λ u. refl) 33 link
