-- ===== src/Counter/Division.antt =====
-- The output of the divider: it turns at every third falling edge, so its period is six of the
-- clock's.
use risc_v_rv32i_multi_cycle.Prelude.{
  ℕ, zero, suc, ◌+◌, ◌*◌, ◌%◌, ◌≡◌, refl, ap, ◌∙◌, Bool, ◌==◌, if◌then◌else◌, arith, [],
}
use risc_v_rv32i_multi_cycle.Core.{flip}
use risc_v_rv32i_multi_cycle.TestBench.{cycles}
use risc_v_rv32i_multi_cycle.TestBench.Phases.{cycles-add, cycles_later}
use risc_v_rv32i_multi_cycle.Counter.{Counter, counter_eval, counter_step, counter_main}

abbrev pub flips : ℕ → ℕ → ℕ
flips zero v = v
flips (suc n) v = flips n (flip v)

-- The clock has just risen, the count is 0, and the output has a value.
abbrev pub at_zero : ℕ → Counter
at_zero v = record { clk_i = 1; clk_o = v; last_clk = 0; counter = 0; ff = v }

turned : Bool → Counter → Counter
turned b u = if b then record u { clk_i = flip u.clk_i } else u

step_later : (t : ℕ) (u : Counter) → counter_step (t + 60) u ≡ counter_step t u
unfolding turned
step_later t u = ap (λ b. turned b (counter_eval u)) phase
  where
    phase : (suc (t + 60) % 10 == 0) ≡ (suc t % 10 == 0)
    phase = ground arith

-- From a rising edge with the count at 0, after any number of times sixty time steps, which are three
-- clock cycles, the unit is as it was, but its output has turned as many times.
pub cycles-flips :
    (n v : ℕ) → cycles counter_step [] 0 (60 * n) 10 (at_zero v) ≡ at_zero (flips n v)
unfolding cycles
cycles-flips zero v = refl
cycles-flips (suc n) v =
    ap (λ j. cycles counter_step [] 0 j 10 (at_zero v)) more
    ∙ cycles-add counter_step 0 [] 60 (60 * n) 10 (at_zero v)
    ∙ cycles_later counter_step 0 60 step_later (60 * n) 10 (at_zero (flip v))
    ∙ cycles-flips n (flip v)
  where
    more : 60 * suc n ≡ 60 + 60 * n
    more = omega arith

-- The program of the test bench, from a count of 0 and a low clock, turns the output sixteen times and
-- ends two falling edges later.
counter_main_lem :
    (v w : ℕ)
    → let u =
        (counter_main (record { clk_i = 0; clk_o = w; last_clk = 0; counter = 0; ff = v })).unit in
      (u.ff ≡ flips 16 v) × (u.clk_o ≡ flips 16 v) × (u.counter ≡ 2)
unfolding counter_main cycles
counter_main_lem v w = (refl, refl, refl)
