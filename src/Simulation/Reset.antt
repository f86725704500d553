-- ===== src/Simulation/Reset.antt =====
-- The reset sequence (`begin_reset`, `update_reset`, `end_reset`).
use risc_v_rv32i_multi_cycle.Prelude.{
  ℕ, zero, suc, ◌+◌, ◌<◌, ◌≡◌, refl, true, false, some, arith, ltb, lt→ltb, le→ltb_false, ◌∙◌, w64,
}
use risc_v_rv32i_multi_cycle.Core.{Core, KeepsInputs}
use risc_v_rv32i_multi_cycle.Model.{Model}
use risc_v_rv32i_multi_cycle.Simulation.{
  begin, step, begin_reset, end_reset, reset_loop, update_reset, reset,
}
use risc_v_rv32i_multi_cycle.Simulation.Steps.{iterate}
use risc_v_rv32i_multi_cycle.Simulation.Clock.{step_counts, iterate_counts, full_cycles}

module _ {H : Type 0} (eval : Core H → Core H) (keeps : KeepsInputs eval) where
  -- With `left` rounds to go after the next one, and fuel for them, the loop makes them all.
  reset_loop_runs :
      (left fuel : ℕ) (m : Model H)
      → m.step_cnt + suc left ≡ 60
      → m.time_step_ns + suc left < w64
      → left < fuel
      → reset_loop eval fuel m ≡ some (iterate eval (suc left) m)
  unfolding reset_loop iterate
  reset_loop_runs left zero m h small lt = absurd (omega arith)
  reset_loop_runs zero (suc fuel) m h small lt =
      let (_, counted, _, _) = step_counts eval keeps m (omega arith) in
      let done : ltb (step eval m).step_cnt 60 ≡ false = le→ltb_false _ 60 (omega arith) in
      rw (done, reset_loop)
  reset_loop_runs (suc left) (suc fuel) m h small lt =
      let (time, counted, _, _) = step_counts eval keeps m (omega arith) in
      let more : ltb (step eval m).step_cnt 60 ≡ true = lt→ltb _ 60 (omega arith) in
      rw (more, reset_loop)
        (reset_loop_runs left fuel (step eval m) (omega arith) (omega arith) (omega arith))

  reset_begin : (m : Model H) → (begin m).core.reset_i ≡ m.core.reset_i
  unfolding begin
  reset_begin m = ground arith

  abbrev pub closed : Model H → Model H
  closed m = end_reset (record m { reset_active = false })

  -- Where `eval` keeps its inputs and the clock line is 0 or 1, `sg reset` ends, and has stepped the processor for exactly three clock cycles with the reset
  -- line low: every one of the 60 evaluations sees it low. Afterwards the line is high, the time
  -- and the step count are 60, the clock line is as it was, and the simulation is not running.
  pub reset_lem :
      (m : Model H)
      → m.core.clk_i < 2
      → (m' : Model H) × (reset eval m ≡ some m')
        × (m' ≡ closed (iterate eval 60 (begin_reset m)))
        × ((k : ℕ) → k < 60 → (begin (iterate eval k (begin_reset m))).core.reset_i ≡ 0)
        × (m'.core.reset_i ≡ 1)
        × (m'.core.clk_i ≡ m.core.clk_i)
        × (m'.core.irq_i ≡ m.core.irq_i)
        × (m'.time_step_ns ≡ 60)
        × (m'.step_cnt ≡ 60)
        × (m'.sim_running ≡ false)
        × (m'.reset_active ≡ false)
  unfolding reset begin_reset update_reset end_reset
  reset_lem m c =
      let m₀ = begin_reset m in
      let (time, cnt, low, irq) = iterate_counts eval keeps 60 m₀ (omega arith) in
      let (clock, _) = full_cycles eval keeps 3 m₀ c (omega arith) (omega arith) in
      (
        closed (iterate eval 60 m₀),
        rw (reset_loop_runs 59 61 m₀ (omega arith) (omega arith) (omega arith)),
        refl,
        λ k h. reset_begin (iterate eval k m₀) ∙ (iterate_counts eval keeps k m₀ (omega arith)).2,
        refl,
        clock,
        irq,
        time,
        cnt,
        refl,
        refl,
      )
