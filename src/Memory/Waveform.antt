-- ===== src/Memory/Waveform.antt =====
-- What the test bench of the memory reads and writes.
use risc_v_rv32i_multi_cycle.Prelude.{ℕ, ◌≡◌, refl, ◌++◌, ◌==◌, if◌then◌else◌, replicate}
use risc_v_rv32i_multi_cycle.TestBench.{cycles, outputs}
use risc_v_rv32i_multi_cycle.Memory.{Memory, memory_main}

-- Before the first evaluation: the clock is low and has been.
abbrev memory_rest : Memory → Memory
memory_rest u = record u { clk_i = 0; last_clk = 0 }

-- The program of the test bench, whatever the memory holds: the output port shows what it did for 20 time
-- steps, then the cell 0 for 40, and then the word 0xA0A0 that was written to the cell 5 and read back;
-- the cell 2, which one of the moves addresses, never shows. The cell 5 is all that changes.
memory_main_lem :
    (u : Memory) (i : ℕ)
    → let r = memory_main (memory_rest u) in
      (r.port ≡ replicate 20 u.data_o ++ replicate 40 (u.mem 0) ++ replicate 40 0xA0A0)
      × (r.unit.mem i ≡ (if 5 == i then 0xA0A0 else u.mem i))
unfolding memory_main cycles outputs
memory_main_lem u i = (refl, refl)
