-- ===== src/Register.antt =====
-- A register with a load line, modules/Register.sv, and its test bench simulation/register. What it
-- shows is the waveform, of which the output port is modelled.
use risc_v_rv32i_multi_cycle.Prelude.{
  ℕ, suc, ◌%◌, ◌&&◌, List, [], ◌∷◌, ◌++◌, ◌==◌, if◌then◌else◌, Bytes, codes, ◌≡◌, refl, replicate,
}
use risc_v_rv32i_multi_cycle.Core.{flip}
use risc_v_rv32i_multi_cycle.TestBench.{Move, cycles, outputs}

pub record Register : Type 0 where
  pub clk_i : ℕ
  pub ld_i : ℕ
  pub data_i : ℕ
  pub data_o : ℕ
  pub last_clk : ℕ

-- The register at the falling edge of the clock.
abbrev load_edge : Register → Register
load_edge u = if u.ld_i == 0 then record u { data_o = u.data_i } else u

abbrev register_eval : Register → Register
register_eval u =
    let u' = if u.last_clk == 1 && u.clk_i == 0 then load_edge u else u in
    record u' { last_clk = u.clk_i }

-- `step`
abbrev register_step : ℕ → Register → Register
register_step time u =
    let u' = register_eval u in
    if suc time % 10 == 0 then record u' { clk_i = flip u'.clk_i } else u'

-- The moves of the loop.
abbrev load_line_moves : List (Move Register)
load_line_moves =
    record { at = 10; make = λ u. record u { ld_i = 1; data_i = 0xA0 } }
    ∷ record { at = 120; make = λ u. record u { ld_i = 0 } }
    ∷ record { at = 230; make = λ u. record u { ld_i = 1; data_i = 0xB0 } }
    ∷ record { at = 320; make = λ u. record u { ld_i = 0 } }
    ∷ []

-- The lines printed, and the output port at each time step.
pub record Traced : Type 0 where
  pub lines : List Bytes
  pub port : List ℕ

-- `main`
unfoldable register_main : Register → Traced
unfolding cycles outputs
register_main u =
    let start = register_eval (record u { ld_i = 1 }) in
    record {
      lines =
          codes "Setting up" ∷ codes "Time (0) " ∷ codes "Finish TB." ∷ codes "Shutting down" ∷ [];
      port =
          outputs (λ v. v.data_o) register_step load_line_moves 500 0 start
          ++ outputs (λ v. v.data_o) register_step [] 40 500
              (cycles register_step load_line_moves 0 500 0 start);
    }

-- Whatever the register holds before, with the clock low, the program shows that for 120 time steps,
-- then 0xA0 for 200, though the data change at 230, and then 0xB0 for the rest.
register_main_shows :
    (ld input held : ℕ)
    → (register_main
        (record { clk_i = 0; ld_i = ld; data_i = input; data_o = held; last_clk = 0 })).port
      ≡ replicate 120 held ++ replicate 200 0xA0 ++ replicate 220 0xB0
unfolding register_main cycles outputs
register_main_shows ld input held = refl
