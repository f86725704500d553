-- ===== src/Spi/RoundTrip.antt =====
-- What comes back to the SPI master: Top.sv leads MOSI back to MISO.
use risc_v_rv32i_multi_cycle.Prelude.{
  ℕ, zero, suc, ◌+◌, ◌*◌, ◌<◌, ◌≤◌, ◌≡◌, refl, ◌∙◌, Option, some, none, arith, ltb, not, ◌==◌, ◌||◌,
}
use risc_v_rv32i_multi_cycle.Core.{Unpacked, byte_bit}
use risc_v_rv32i_multi_cycle.TestBench.{cycles}
use risc_v_rv32i_multi_cycle.TestBench.Loops.{loop_until, loop_until_more, bind_some}
use risc_v_rv32i_multi_cycle.Spi.Master.{Top}
use risc_v_rv32i_multi_cycle.Alu.{bit}
use risc_v_rv32i_multi_cycle.Spi.Bench.{
  spi_program, Sent, sent, spi_start, send_byte, send_round, Sending,
}

-- The byte that the bits make up.
abbrev pub packed : Unpacked → ℕ
packed f = 128 * f 7 + 64 * f 6 + 32 * f 5 + 16 * f 4 + 8 * f 3 + 4 * f 2 + 2 * f 1 + f 0

packed-byte_bit : (b : ℕ) → b < 256 → packed (byte_bit b) ≡ b
packed-byte_bit b h = omega arith

-- Before the first evaluation: the clock has been low and the reset inactive.
abbrev pub spi_rest : ℕ → Top → Top
spi_rest count u = record u { master_tx_count = count; last_clk = 0; last_rst_l = 1 }

-- The fuel that is enough for a byte: 2000 rounds.
abbrev spi_fuel : ℕ
spi_fuel = 2000

send_byte_more :
    (fuel b : ℕ) (s r : Sending)
    → spi_fuel ≤ fuel
    → send_byte spi_fuel b s ≡ some r
    → send_byte fuel b s ≡ some r
unfolding send_byte
send_byte_more fuel b s r =
    loop_until_more (λ r. not (ltb r.edge_cnt 3)) (send_round b) spi_fuel fuel
      (record s { edge_cnt = 0 }) r

abbrev ended : Sending → Option Sending → Sending
ended d none = d
ended d (some s) = s

-- The state after the first byte and after the second.
abbrev after_first : ℕ → ℕ → Top → Sending
unfolding spi_start cycles send_byte loop_until sent
after_first c b u = ended (spi_start u) (send_byte spi_fuel b (spi_start (spi_rest c u)))

abbrev after_second : ℕ → ℕ → ℕ → Top → Sending
unfolding spi_start cycles send_byte loop_until sent
after_second c b1 b2 u = ended (after_first c b1 u) (send_byte spi_fuel b2 (after_first c b1 u))

-- The bytes received, and where the chip select is high.
abbrev IsEchoed : ℕ → ℕ → ℕ → Sent → Type 0
IsEchoed count b1 b2 o =
    (packed o.first.master.protocol.rx_byte ≡ packed (byte_bit b1))
    × (packed o.second.master.protocol.rx_byte ≡ packed (byte_bit b2))
    × (o.first.spi_cs_n ≡ bit (count == 1))
    × (o.last.spi_cs_n ≡ bit (count == 1 || count == 2))

abbrev EndsEchoed : ℕ → ℕ → ℕ → ℕ → Top → Type 0
EndsEchoed fuel b1 b2 count u =
    (o : Sent) × (spi_program fuel b1 b2 (spi_rest count u) ≡ some o) × IsEchoed count b1 b2 o

-- One evaluation for a count of bytes, with the two bytes unknown.
ends :
    (fuel b1 b2 count : ℕ) (u : Top)
    → spi_fuel ≤ fuel
    → send_byte spi_fuel b1 (spi_start (spi_rest count u)) ≡ some (after_first count b1 u)
    → send_byte spi_fuel b2 (after_first count b1 u) ≡ some (after_second count b1 b2 u)
    → IsEchoed count b1 b2 (sent (after_first count b1 u) (after_second count b1 b2 u))
    → EndsEchoed fuel b1 b2 count u
unfolding spi_program
ends fuel b1 b2 count u l e1 e2 h = (
  sent (after_first count b1 u) (after_second count b1 b2 u),
  bind_some (send_byte fuel b1 (spi_start (spi_rest count u))) _ (after_first count b1 u) _
      (send_byte_more fuel b1 (spi_start (spi_rest count u)) (after_first count b1 u) l e1)
      (bind_some (send_byte fuel b2 (after_first count b1 u)) _ (after_second count b1 b2 u) _
        (send_byte_more fuel b2 (after_first count b1 u) (after_second count b1 b2 u) l e2) refl),
  h,
)

by_count : (P : ℕ → Type 0) → P 0 → P 1 → P 2 → P 3 → (n : ℕ) → n < 4 → P n
by_count P p0 p1 p2 p3 zero h = p0
by_count P p0 p1 p2 p3 (suc zero) h = p1
by_count P p0 p1 p2 p3 (suc (suc zero)) h = p2
by_count P p0 p1 p2 p3 (suc (suc (suc zero))) h = p3
by_count P p0 p1 p2 p3 (suc (suc (suc (suc n)))) h = absurd (omega arith)

-- The program of the test bench, sending any two bytes, with any value at the port for the count of
-- bytes and whatever the registers hold at the start: with fuel for 2000 rounds both of its waiting loops
-- end, and at the end of each the byte that the master has received over the loop is the byte that was
-- sent. The chip select is high again after the first byte exactly if the count is 1, and at the end of
-- the program exactly if it is 1 or 2, so that with the count that the program leaves, 0, it stays low.
pub spi_program-echo :
    (fuel b1 b2 count : ℕ) (u : Top)
    → spi_fuel ≤ fuel
    → b1 < 256
    → b2 < 256
    → count < 4
    → (o : Sent) × (spi_program fuel b1 b2 (spi_rest count u) ≡ some o)
      × (packed o.first.master.protocol.rx_byte ≡ b1)
      × (packed o.second.master.protocol.rx_byte ≡ b2)
      × (o.first.spi_cs_n ≡ bit (count == 1))
      × (o.last.spi_cs_n ≡ bit (count == 1 || count == 2))
unfolding spi_start cycles send_byte loop_until sent
spi_program-echo fuel b1 b2 count u l h1 h2 hc =
    let (o, e, (r1, r2, c1, c2)) =
      by_count (λ c. EndsEchoed fuel b1 b2 c u)
        (ends fuel b1 b2 0 u l refl refl (refl, refl, refl, refl))
        (ends fuel b1 b2 1 u l refl refl (refl, refl, refl, refl))
        (ends fuel b1 b2 2 u l refl refl (refl, refl, refl, refl))
        (ends fuel b1 b2 3 u l refl refl (refl, refl, refl, refl)) count hc in
    (o, e, r1 ∙ packed-byte_bit b1 h1, r2 ∙ packed-byte_bit b2 h2, c1, c2)
