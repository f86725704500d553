-- ===== src/Mux.antt =====
-- The test bench simulation/mux of the multiplexer modules/Mux4.sv.
use risc_v_rv32i_multi_cycle.Prelude.{ℕ, List, [], ◌∷◌, ◌++◌, Bytes, codes, ◌≡◌, refl, replicate}
use risc_v_rv32i_multi_cycle.TestBench.{Move, cycles, outputs}
use risc_v_rv32i_multi_cycle.Pmmu.{mux4}

pub record Mux : Type 0 where
  pub select_i : ℕ
  pub data0_i : ℕ
  pub data1_i : ℕ
  pub data2_i : ℕ
  pub data3_i : ℕ
  pub data_o : ℕ

-- `step`, which evaluates, dumps and counts
abbrev mux_step : ℕ → Mux → Mux
mux_step time u = record u { data_o = mux4 u.select_i u.data0_i u.data1_i u.data2_i u.data3_i }

abbrev select_at : ℕ → ℕ → Move Mux
select_at at select = record { at = at; make = λ u. record u { select_i = select } }

-- The moves of the loop.
abbrev select_moves : List (Move Mux)
select_moves = select_at 10 0b00 ∷ select_at 20 0b01 ∷ select_at 30 0b10 ∷ select_at 40 0b11 ∷ []

-- The inputs that are set before the loop.
abbrev mux_inputs : Mux → Mux
mux_inputs u = record u {
  select_i = 0;
  data0_i = 0xA0;
  data1_i = 0xB0;
  data2_i = 0xC0;
  data3_i = 0xD0;
}

-- The lines printed, and the output port at each time step.
pub record MuxTrace : Type 0 where
  pub lines : List Bytes
  pub port : List ℕ

-- `main`
unfoldable mux_main : Mux → MuxTrace
unfolding cycles outputs
mux_main u =
    let start = mux_inputs (mux_step 0 u) in
    record {
      lines =
          codes "Setting up" ∷ codes "Time (0) " ∷ codes "Finish TB." ∷ codes "Shutting down" ∷ [];
      port =
          outputs (λ v. v.data_o) mux_step select_moves 50 0 start
          ++ outputs (λ v. v.data_o) mux_step [] 40 50 (cycles mux_step select_moves 0 50 0 start);
    }

-- Whatever the ports hold before, the program shows the first input for 20 time steps, the second and
-- the third for 10 each, and the fourth for the rest.
mux_main_shows :
    (u : Mux)
    → (mux_main u).port
      ≡ replicate 20 0xA0 ++ replicate 10 0xB0 ++ replicate 10 0xC0 ++ replicate 50 0xD0
unfolding mux_main cycles outputs
mux_main_shows u = refl
