-- ===== src/Simulation/Clock.antt =====
-- The time and the clock line under `Simulation::begin` and `Simulation::update`.
use risc_v_rv32i_multi_cycle.Prelude.{
  ℕ, zero, suc, ◌+◌, ◌*◌, ◌%◌, ◌≤◌, ◌<◌, ◌≡◌, refl, arith, ◌∙◌, ap, w64,
}
use risc_v_rv32i_multi_cycle.Core.{Core, flip, flip-flip, KeepsInputs}
use risc_v_rv32i_multi_cycle.Model.{Model, half_cycle}
use risc_v_rv32i_multi_cycle.Simulation.{begin, step}
use risc_v_rv32i_multi_cycle.Simulation.Steps.{iterate, iterate-add}

module _ {H : Type 0} (eval : Core H → Core H) (keeps : KeepsInputs eval) where
  pub step_counts :
      (m : Model H)
      → m.time_step_ns + 1 < w64
      → ((step eval m).time_step_ns ≡ m.time_step_ns + 1)
        × ((step eval m).step_cnt ≡ m.step_cnt + 1)
        × ((step eval m).core.reset_i ≡ m.core.reset_i)
        × ((step eval m).core.irq_i ≡ m.core.irq_i)
  unfolding step
  step_counts m h = ground (arith, keeps.reset (begin m).core, keeps.irq (begin m).core)

  -- After `k` steps the time and the step count are `k` further, and the other two inputs of the
  -- processor are as they were.
  pub iterate_counts :
      (k : ℕ) (m : Model H)
      → m.time_step_ns + k < w64
      → ((iterate eval k m).time_step_ns ≡ m.time_step_ns + k)
        × ((iterate eval k m).step_cnt ≡ m.step_cnt + k)
        × ((iterate eval k m).core.reset_i ≡ m.core.reset_i)
        × ((iterate eval k m).core.irq_i ≡ m.core.irq_i)
  unfolding iterate
  iterate_counts zero m h = (omega arith, omega arith, refl, refl)
  iterate_counts (suc k) m h =
      let (time, cnt, reset, irq) = step_counts m (omega arith) in
      let (time', cnt', reset', irq') = iterate_counts k (step eval m) (omega arith) in
      (omega arith, omega arith, reset' ∙ reset, irq' ∙ irq)

  begin_toggles : (m : Model H) → m.time_step_ns % 10 ≡ 0 → (begin m).core.clk_i ≡ flip m.core.clk_i
  unfolding begin
  begin_toggles m h = ground arith

  begin_quiet : (m : Model H) → 0 < m.time_step_ns % 10 → (begin m).core.clk_i ≡ m.core.clk_i
  unfolding begin
  begin_quiet m h = ground arith

  toggle : (m : Model H) → m.time_step_ns % 10 ≡ 0 → (step eval m).core.clk_i ≡ flip m.core.clk_i
  unfolding step
  toggle m h = keeps.clock (begin m).core ∙ begin_toggles m h

  quiet : (m : Model H) → 0 < m.time_step_ns % 10 → (step eval m).core.clk_i ≡ m.core.clk_i
  unfolding step
  quiet m h = keeps.clock (begin m).core ∙ begin_quiet m h

  quiet_iterate :
      (k : ℕ) (m : Model H)
      → 0 < m.time_step_ns % 10
      → m.time_step_ns % 10 + k ≤ 10
      → m.time_step_ns + k < w64
      → (iterate eval k m).core.clk_i ≡ m.core.clk_i
  unfolding iterate
  quiet_iterate zero m h room small = refl
  quiet_iterate (suc zero) m h room small = quiet m h
  quiet_iterate (suc (suc k)) m h room small =
      let time = (step_counts m (omega arith)).0 in
      quiet_iterate (suc k) (step eval m) (omega arith) (omega arith) (omega arith) ∙ quiet m h

  -- From a multiple of a half cycle on, the clock line toggles once in a half cycle, at its start.
  pub half_cycle_toggles :
      (m : Model H)
      → m.time_step_ns % 10 ≡ 0
      → m.time_step_ns + 10 < w64
      → (iterate eval half_cycle m).core.clk_i ≡ flip m.core.clk_i
  unfolding iterate
  half_cycle_toggles m h small =
      let time = (step_counts m (omega arith)).0 in
      quiet_iterate 9 (step eval m) (omega arith) (omega arith) (omega arith) ∙ toggle m h

  -- Where `eval` keeps its inputs and the clock line is 0 or 1, `n` full cycles from a multiple of a
  -- half cycle on take the clock line back to where it was, and 20 time steps each, if the time does
  -- not wrap.
  pub full_cycles :
      (n : ℕ) (m : Model H)
      → m.core.clk_i < 2
      → m.time_step_ns % 10 ≡ 0
      → m.time_step_ns + n * 20 < w64
      → ((iterate eval (n * 20) m).core.clk_i ≡ m.core.clk_i)
        × ((iterate eval (n * 20) m).time_step_ns ≡ m.time_step_ns + n * 20)
  full_cycles zero m c h small =
      let none_left : 0 * 20 ≡ 0 = omega arith in
      rw none_left (unfold iterate in (refl, omega arith))
  full_cycles (suc n) m c h small =
      let split : suc n * 20 ≡ 10 + (10 + n * 20) = omega arith in
      let m' = iterate eval half_cycle m in
      let m'' = iterate eval half_cycle m' in
      let time' = (iterate_counts 10 m (omega arith)).0 in
      let time'' = (iterate_counts 10 m' (omega arith)).0 in
      let back : m''.core.clk_i ≡ m.core.clk_i =
        half_cycle_toggles m' (omega arith) (omega arith)
        ∙ ap flip (half_cycle_toggles m h (omega arith))
        ∙ flip-flip m.core.clk_i c in
      let (clock, time) = full_cycles n m'' (rw back c) (omega arith) (omega arith) in
      rw (split, iterate-add eval 10 (10 + n * 20) m, iterate-add eval 10 (n * 20) m')
        (clock ∙ back, omega arith)
