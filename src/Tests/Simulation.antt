-- ===== src/Tests/Simulation.antt =====
-- The theorems on the simulation and the model, at concrete values.
use risc_v_rv32i_multi_cycle.Prelude.{
  ℕ, zero, suc, ◌%◌, ◌<◌, ◌≡◌, ◌↔◌, refl, true, false, none, some, arith,
}
use risc_v_rv32i_multi_cycle.Commands.{fetch, decode, execute}
use risc_v_rv32i_multi_cycle.Model.{Model}
use risc_v_rv32i_multi_cycle.Simulation.{
  begin_reset, begin, update, step, reset, in_state, at_ebreak, max_steps, run_to_fetch,
  run_to_decode, run_to_ebreak,
}
use risc_v_rv32i_multi_cycle.Simulation.Steps.{iterate, IsFirst}
use risc_v_rv32i_multi_cycle.Simulation.Reset.{reset_lem, closed}
use risc_v_rv32i_multi_cycle.Simulation.RunTo.{
  Visits, run_to_fetch_lem, run_to_decode_hangs, run_to_decode_ends,
}
use risc_v_rv32i_multi_cycle.Simulation.Ebreak.{
  run_to_ebreak_lem, system_word, at_ebreak-system_word,
}
use risc_v_rv32i_multi_cycle.Tests.Values.{turn, idle, turn-KeepsInputs, model_at}

abbrev model : Model Unit
model = model_at fetch 0x73

reset_lem_example :
    (m' : Model Unit) × (reset turn model ≡ some m')
    × (m' ≡ closed turn turn-KeepsInputs (iterate turn 60 (begin_reset model)))
    × ((k : ℕ) → k < 60 → (begin (iterate turn k (begin_reset model))).core.reset_i ≡ 0)
    × (m'.core.reset_i ≡ 1)
    × (m'.core.clk_i ≡ model.core.clk_i)
    × (m'.core.irq_i ≡ model.core.irq_i)
    × (m'.time_step_ns ≡ 60)
    × (m'.step_cnt ≡ 60)
    × (m'.sim_running ≡ false)
    × (m'.reset_active ≡ false)
reset_lem_example = reset_lem turn turn-KeepsInputs model (omega arith)

run_to_fetch_lem_example :
    ((in_state fetch model ≡ true) → Visits turn decode fetch model (run_to_fetch turn model))
    × ((in_state fetch model ≡ false)
        → (k : ℕ) × (run_to_fetch turn model ≡ iterate turn k model)
          × IsFirst turn (in_state fetch) model max_steps k)
run_to_fetch_lem_example = run_to_fetch_lem turn model

-- A processor that stays in `Decode`.
stays :
    (k : ℕ) (m : Model Unit) → m.core.state ≡ decode → in_state execute (iterate idle k m) ≡ false
unfolding iterate step begin update
stays zero m h = rw h refl
stays (suc k) m h = stays k (step idle m) (ground (arith, h))

run_to_decode_hangs_example : run_to_decode idle 1000 (model_at decode 0) ≡ none
run_to_decode_hangs_example =
    run_to_decode_hangs idle 1000 (model_at decode 0) refl (λ k. stays k (model_at decode 0) refl)

-- `Execute` is one step away.
next_executes :
    (in_state decode (model_at decode 0) ≡ true)
    → in_state execute (iterate turn 1 (model_at decode 0)) ≡ true
unfolding iterate step begin update
next_executes _ = refl

run_to_decode_ends_example :
    (j k : ℕ) × (run_to_decode turn 2 (model_at decode 0)
      ≡ some (iterate turn k (iterate turn j (model_at decode 0))))
    × IsFirst turn (in_state decode) (iterate turn j (model_at decode 0)) max_steps k
    × ((in_state decode (model_at decode 0) ≡ true)
        → IsFirst turn (in_state execute) (model_at decode 0) 1 j)
    × ((in_state decode (model_at decode 0) ≡ false) → j ≡ 0)
run_to_decode_ends_example =
    run_to_decode_ends turn 1 2 (model_at decode 0) (omega arith) next_executes

run_to_ebreak_lem_example :
    (k : ℕ) × (run_to_ebreak turn model ≡ iterate turn (suc k) model)
    × IsFirst turn at_ebreak (step turn model) 99999 k
run_to_ebreak_lem_example = run_to_ebreak_lem turn model

-- `csrrw x0, mtvec, x1`
abbrev csr_access : Model Unit
csr_access = model_at fetch (system_word 0x305 1 1 0)

at_ebreak-system_word_example : (at_ebreak csr_access ≡ true) ↔ (0x305 % 2 ≡ 1)
at_ebreak-system_word_example =
    at_ebreak-system_word csr_access 0x305 1 1 0 (omega arith) (omega arith) (omega arith)
      (omega arith) refl

abbrev free_model : Model Unit
free_model = record model { stepping_enabled = false }
