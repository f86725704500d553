-- ===== src/RegisterFile/Verdict.antt =====
-- What the test bench of the register file finds.
use risc_v_rv32i_multi_cycle.Prelude.{ℕ, ◌≡◌, refl, ltb, if◌then◌else◌}
use risc_v_rv32i_multi_cycle.Core.{update}
use risc_v_rv32i_multi_cycle.TestBench.{cycles}
use risc_v_rv32i_multi_cycle.RegisterFile.{RegisterFile}
use risc_v_rv32i_multi_cycle.RegisterFile.Bench.{file_main}

-- Before the first evaluation of the test bench: the clock is low and has been.
abbrev at_rest : RegisterFile → RegisterFile
at_rest t = record t { clk_i = 0; last_clk = 0 }

-- The program of the test bench ends with EXIT_SUCCESS whatever the unit holds at the start: none of
-- its three assertions fails. Of the 32 registers, 1 and 2 then have 0xA0 and 0xB0 and the others 0, also
-- the register 0, which it tries to write.
file_main_passes :
    (t : RegisterFile)
    → ((file_main (at_rest t)).code ≡ 0)
      × ((i : ℕ)
          → (file_main (at_rest t)).file.bank i
            ≡ update (update (λ i. if ltb i 32 then 0 else t.bank i) 1 0xA0) 2 0xB0 i)
unfolding file_main cycles
file_main_passes t = (refl, λ i. refl)
