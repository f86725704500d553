-- ===== src/Simulation.antt =====
-- simulation/ranger_console/simulation.cpp: resetting, stepping, and running to a state, an
-- instruction or an address. `eval` is the generated processor, `tb->eval()`.
pub mod Steps
pub mod Clock
pub mod Reset
pub mod RunTo
pub mod Ebreak
use risc_v_rv32i_multi_cycle.Prelude.{
  ℕ, zero, suc, ◌+◌, ◌-◌, ◌*◌, ◌%◌, Bool, true, false, ◌&&◌, not, Option, none, some, List, ltb,
  ◌==◌, if◌then◌else◌, ◌>>=◌, ℤ, pos, signed32, to_u32, length, get_elem?, take, drop, Bytes, codes,
  eq_text, w64,
}
use risc_v_rv32i_multi_cycle.Utils.{int_to_bin}
use risc_v_rv32i_multi_cycle.Commands.{fetch, decode, execute}
use risc_v_rv32i_multi_cycle.Core.{Core, flip}
use risc_v_rv32i_multi_cycle.Model.{Model, full_cycle, half_cycle}

module _ {H : Type 0} where
  unfoldable pub begin_reset : Model H → Model H
  begin_reset m = record m {
    sim_running = true;
    core = record m.core { reset_i = 0 };
    time_step_ns = 0;
    step_cnt = 0;
    reset_active = true;
  }

  unfoldable pub end_reset : Model H → Model H
  end_reset m = record m { sim_running = false; core = record m.core { reset_i = 1 } }

  -- The clock toggles every half cycle.
  unfoldable pub begin : Model H → Model H
  begin m =
      let c =
        if m.time_step_ns % half_cycle == 0
        then record m.core { clk_i = flip m.core.clk_i }
        else m.core in
      record m { sim_running = true; core = c }

  -- The time is a `vluint64_t`.
  unfoldable pub update : Model H → Model H
  update m = record m {
    p_clk_i = m.core.clk_i;
    step_cnt = m.step_cnt + 1;
    time_step_ns = (m.time_step_ns + 1) % w64;
  }

  unfoldable pub end : Model H → Model H
  end m = record m { sim_running = false }

-- `ir[11] == '1'`
abbrev bit_is_set : Option ℕ → Bool
bit_is_set none = false
bit_is_set (some b) = b == b'1'

-- `maxSteps`, and the rounds of the two `for` loops
abbrev pub max_steps : ℕ
max_steps = 100000

module _ {H : Type 0} where
  abbrev pub in_state : ℕ → Model H → Bool
  in_state s m = m.core.state == s

  -- The test on the printed bits: the seven last ones, and the one at index 11.
  unfoldable pub at_ebreak : Model H → Bool
  unfolding int_to_bin
  at_ebreak m =
      let ir = int_to_bin (signed32 m.core.ir) (codes "") in
      let op_code = take (length ir - 1) (drop (length ir - 7) ir) in
      eq_text op_code (codes "1110011") && bit_is_set (get_elem? ir 11)

  abbrev pub at_target : Model H → Bool
  at_target m = m.core.pc == to_u32 m.target_pc

module _ {H : Type 0} (eval : Core H → Core H) where
  eval_core : Model H → Model H
  eval_core m = record m { core = eval m.core }

  -- The body of every loop below.
  unfoldable pub step : Model H → Model H
  unfolding begin eval_core update
  step m = update (eval_core (begin m))

  -- The `do … while (stepCnt < stepSize)` of `update_reset`; `none` if the fuel runs out.
  reset_loop : ℕ → Model H → Option (Model H)
  reset_loop zero m = none
  reset_loop (suc fuel) m =
      let m' = step m in
      elim (ltb m'.step_cnt (full_cycle * 3)) [ true ↦ reset_loop fuel m' | false ↦ some m' ]

  -- As many rounds as the loop can make.
  update_reset : Model H → Option (Model H)
  unfolding reset_loop
  update_reset m = do
    m' ← reset_loop (full_cycle * 3 + 1) m
    some (record m' { reset_active = false })

  -- The three calls that `main` makes for `sg reset`.
  unfoldable pub reset : Model H → Option (Model H)
  unfolding begin_reset update_reset end_reset
  reset m = do m' ← update_reset (begin_reset m); some (end_reset m')

  -- `while (!stop && cnt < maxSteps)`: recursion on `maxSteps - cnt`.
  pub run_until : ℕ → (Model H → Bool) → Model H → Model H
  run_until zero stop m = m
  run_until (suc left) stop m = elim (stop m) [ true ↦ m | false ↦ run_until left stop (step m) ]

  -- `while (!stop)` with no bound: `none` if the fuel runs out.
  pub run_unbounded : ℕ → (Model H → Bool) → Model H → Option (Model H)
  run_unbounded zero stop m = none
  run_unbounded (suc fuel) stop m = elim (stop m) [
    | true ↦ some m
    | false ↦ run_unbounded fuel stop (step m)
  ]

  unfoldable pub run_to_fetch : Model H → Model H
  unfolding run_until
  run_to_fetch m =
      let m' = if in_state fetch m then run_until max_steps (in_state decode) m else m in
      run_until max_steps (in_state fetch) m'

  -- The first loop tests `cnt < maxSteps` once, before it is entered, and not in each round.
  unfoldable pub run_to_decode : ℕ → Model H → Option (Model H)
  unfolding run_until run_unbounded
  run_to_decode fuel m = do
    m' ← if in_state decode m then run_unbounded fuel (in_state execute) m else some m
    some (run_until max_steps (in_state decode) m')

  unfoldable pub run_to_execute : Model H → Model H
  unfolding run_until
  run_to_execute m =
      let m' = if in_state execute m then run_until max_steps (in_state fetch) m else m in
      run_until max_steps (in_state execute) m'

  -- `for (i = 0; i < rounds; i++) { step; if (stop) break; }`
  pub run_for : ℕ → (Model H → Bool) → Model H → Model H
  run_for zero stop m = m
  run_for (suc left) stop m =
      let m' = step m in elim (stop m') [ true ↦ m' | false ↦ run_for left stop m' ]

  unfoldable pub run_to_ebreak : Model H → Model H
  unfolding run_for at_ebreak
  run_to_ebreak = run_for max_steps at_ebreak

  unfoldable pub run_to_pc : Model H → Model H
  unfolding run_for
  run_to_pc = run_for max_steps at_target
