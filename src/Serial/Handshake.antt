-- ===== src/Serial/Handshake.antt =====
-- The programs that wait for a port: simulation/spi_sync/SPI_tb.cpp, spi_sync3/SPI_tb.cpp and
-- spi_sync4/SPI_tb_MasterSlave.cpp. Each waiting loop runs on the same fuel.
use risc_v_rv32i_multi_cycle.Prelude.{
  ℕ, ◌+◌, Bool, true, false, List, [], ◌∷◌, Bytes, codes, Option, some, ◌>>=◌,
}
use risc_v_rv32i_multi_cycle.TestBench.Loops.{loop_until}
use risc_v_rv32i_multi_cycle.TestBench.Waits.{Wait, wait_round, has_fallen, has_risen, is_high}
use risc_v_rv32i_multi_cycle.Serial.{Link, Linked, time_line, link_step, link_steps, link_start}

-- A change of the ports between two loops.
abbrev pub at_link : {H : Type 0} → (Link H → Link H) → Wait (Link H) → Wait (Link H)
at_link f s = record s { unit = f s.unit }

abbrev pub sending : {H : Type 0} → ℕ → Link H → Link H
sending v u = record u { send_i_n = v }

abbrev pub with_bytes : {H : Type 0} → ℕ → ℕ → Link H → Link H
with_bytes slave master u = record u { byte_to_slave = slave; byte_to_master = master }

-- `p_byte_sent = top->byte_sent` after new bytes.
abbrev pub next_bytes : {H : Type 0} → ℕ → ℕ → Wait (Link H) → Wait (Link H)
next_bytes slave master s = record s {
  before = s.unit.byte_sent;
  unit = with_bytes slave master s.unit;
}

abbrev pub finished : List Bytes → List Bytes
finished [] = codes "Finish TB." ∷ codes "Shutting down" ∷ []
finished (l ∷ ls) = l ∷ finished ls

module _ {H : Type 0} (eval : Link H → Link H) (fuel : ℕ) where
  -- `while (!(p_ready == 1 && top->ready == 0)) { p_ready = top->ready; … }`
  unfoldable pub ready_falls : Wait (Link H) → Option (Wait (Link H))
  unfolding loop_until
  ready_falls =
      loop_until (has_fallen (link_step eval) (λ u. u.ready))
        (wait_round (link_step eval) (λ u. u.ready) true) fuel

  -- `while (!(p_ready == 0 && top->ready == 1)) { p_ready = top->ready; … }`
  unfoldable pub ready_rises : Wait (Link H) → Option (Wait (Link H))
  unfolding loop_until
  ready_rises =
      loop_until (has_risen (link_step eval) (λ u. u.ready))
        (wait_round (link_step eval) (λ u. u.ready) true) fuel

  -- `while (top->ready != 1) { … }`, with or without the line for `p_ready`.
  unfoldable pub ready_high : Bool → Wait (Link H) → Option (Wait (Link H))
  unfolding loop_until
  ready_high notes =
      loop_until (is_high (link_step eval) (λ u. u.ready))
        (wait_round (link_step eval) (λ u. u.ready) notes) fuel

  -- `while (!(p_byte_sent == 1 && top->byte_sent == 0)) { p_byte_sent = top->byte_sent; … }`
  unfoldable pub byte_sent_falls : Wait (Link H) → Option (Wait (Link H))
  unfolding loop_until
  byte_sent_falls =
      loop_until (has_fallen (link_step eval) (λ u. u.byte_sent))
        (wait_round (link_step eval) (λ u. u.byte_sent) true) fuel

  -- The signal is lowered until `ready` falls, and raised.
  unfoldable pub request : Wait (Link H) → Option (Wait (Link H))
  unfolding ready_falls
  request s = do r ← ready_falls (at_link (sending 0) s); some (at_link (sending 1) r)

  -- `main` of spi_sync: the first wait starts at time 601.
  unfoldable pub sync_main : Link H → Option (Linked H)
  unfolding link_start link_steps request ready_rises
  sync_main u = do
    let u1 = link_steps eval 100 501 (with_bytes 0xC5 0xE4 (link_start eval u))
    s1 ← request (record { time_step = 601; before = 1; unit = u1 })
    s2 ← ready_rises s1
    s3 ← request (at_link (λ v. record v { byte_to_slave = 0xA2 }) s2)
    s4 ← ready_rises s3
    some (record {
      lines = codes "Setting up" ∷ finished (time_line (codes "timeStep: ") 501 ∷ []);
      time_step = s4.time_step + 500;
      link = link_steps eval 500 s4.time_step s4.unit;
    })

  -- `main` of spi_sync3
  unfoldable pub sync3_main : Link H → Option (Linked H)
  unfolding link_start link_steps request ready_high
  sync3_main u = do
    let u1 = link_steps eval 100 501 (with_bytes 0xA1 0xE4 (link_start eval u))
    s1 ← ready_high false (record { time_step = 601; before = 1; unit = u1 })
    s2 ← request s1
    s3 ← ready_high true s2
    s4 ← request (at_link (with_bytes 0xA2 0x5A) s3)
    s5 ← ready_high true s4
    some (record {
      lines =
          codes "Setting up"
          ∷ finished (
              time_line (codes "timeStep: ") 501
              ∷ time_line (codes "WA timeStep: ") s3.time_step
              ∷ time_line (codes "Sent signal timeStep: ") s4.time_step
              ∷ time_line (codes "WA2 timeStep: ") s5.time_step
              ∷ []);
      time_step = s5.time_step + 500;
      link = link_steps eval 500 s5.time_step s5.unit;
    })

  -- `main` of SPI_tb_MasterSlave.cpp, which lowers the signal for good.
  unfoldable pub master_slave_main : Link H → Option (Linked H)
  unfolding link_start link_steps byte_sent_falls
  master_slave_main u = do
    let u1 = link_steps eval 75 501 (with_bytes 0xA1 0xE4 (link_start eval u))
    s1 ← byte_sent_falls (record { time_step = 576; before = u.byte_sent; unit = sending 0 u1 })
    s2 ← byte_sent_falls (next_bytes 0x2A 0x99 s1)
    s3 ← byte_sent_falls (next_bytes 0x32 0xC9 s2)
    some (record {
      lines =
          codes "Setting up"
          ∷ finished (time_line (codes "timeStep: ") 501 ∷ time_line (codes "timeStep: ") 576 ∷ []);
      time_step = s3.time_step + 1000;
      link = link_steps eval 1000 s3.time_step s3.unit;
    })
