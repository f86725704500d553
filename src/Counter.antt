-- ===== src/Counter.antt =====
-- The clock divider simulation/counter/Counter.sv, and its test bench Counter_tb.cpp.
use risc_v_rv32i_multi_cycle.Prelude.{
  ℕ, suc, ◌+◌, ◌-◌, ◌%◌, ◌&&◌, List, [], ◌∷◌, ◌==◌, if◌then◌else◌, Bytes, codes,
}
use risc_v_rv32i_multi_cycle.Core.{flip}
use risc_v_rv32i_multi_cycle.TestBench.{cycles}
pub mod Division

-- The ports, the clock that the last `eval` saw, and the two registers.
pub record Counter : Type 0 where
  pub clk_i : ℕ
  pub clk_o : ℕ
  pub last_clk : ℕ
  pub counter : ℕ
  pub ff : ℕ

-- The registers at the falling edge of the clock.
abbrev count_edge : Counter → Counter
count_edge u =
    if u.counter == 2
    then record u { counter = 0; ff = flip u.ff }
    else record u { counter = (u.counter + 1) % 4 }

abbrev pub follow : Counter → Counter
follow u = record u { clk_o = u.ff; last_clk = u.clk_i }

abbrev pub counter_eval : Counter → Counter
counter_eval u = follow (if u.last_clk == 1 && u.clk_i == 0 then count_edge u else u)

-- `step`
abbrev pub counter_step : ℕ → Counter → Counter
counter_step time u =
    let u' = counter_eval u in
    if suc time % 10 == 0 then record u' { clk_i = flip u'.clk_i } else u'

-- What the program prints, and the unit at its end.
pub record Finished : Type 0 where
  pub lines : List Bytes
  pub unit : Counter

-- `main`: the loop makes the time steps from 1 to 1000.
unfoldable pub counter_main : Counter → Finished
unfolding cycles
counter_main u = record {
  lines = codes "Setting up" ∷ codes "Finish TB." ∷ codes "Shutting down" ∷ [];
  unit = cycles counter_step [] 0 1000 1 (counter_eval (record u { clk_i = 0 }));
}
