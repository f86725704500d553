-- ===== src/Simulation/RunTo.antt =====
-- Running to a state of the control matrix or to an address (`run_to_fetch`, `run_to_decode`,
-- `run_to_execute`, `run_to_pc`).
use risc_v_rv32i_multi_cycle.Prelude.{
  ℕ, suc, ◌<◌, ◌≡◌, inl, inr, refl, true, false, some, none, ◌∙◌, ap, Bool-cases,
}
use risc_v_rv32i_multi_cycle.Commands.{fetch, decode, execute}
use risc_v_rv32i_multi_cycle.Core.{Core}
use risc_v_rv32i_multi_cycle.Model.{Model}
use risc_v_rv32i_multi_cycle.Simulation.{
  max_steps, step, run_until, in_state, run_to_fetch, run_to_decode, run_to_execute, run_to_pc,
  at_target,
}
use risc_v_rv32i_multi_cycle.Simulation.Steps.{
  iterate, IsFirst, run_until-IsFirst, run_for-IsFirst, run_unbounded_ends, run_unbounded_hangs,
}

module _ {H : Type 0} (eval : Core H → Core H) where
  -- From `m`, `j` steps lead to the first state `away` and `k` more to the first state `to`, each
  -- within `max_steps`, or else that many steps were made.
  pub record Visits (away to : ℕ) (m m' : Model H) : Type 0 where
    pub j : ℕ
    pub k : ℕ
    pub leaves : IsFirst eval (in_state away) m max_steps j
    pub arrives : IsFirst eval (in_state to) (iterate eval j m) max_steps k
    pub ends : m' ≡ iterate eval k (iterate eval j m)

  run_both :
      (away to : ℕ) (m : Model H)
      → Visits away to m
          (run_until eval max_steps (in_state to) (run_until eval max_steps (in_state away) m))
  run_both away to m =
      let (j, out, leaves) = run_until-IsFirst eval max_steps (in_state away) m in
      let (k, on, arrives) = run_until-IsFirst eval max_steps (in_state to) (iterate eval j m) in
      record {
        j = j;
        k = k;
        leaves = leaves;
        arrives = arrives;
        ends = ap (run_until eval max_steps (in_state to)) out ∙ on;
      }

  -- `rn fetch` always ends. From another state it runs to the first `Fetch`; from `Fetch` it runs
  -- to the first `Decode` and from there to the next `Fetch`. Each run makes at most 100000 steps.
  pub run_to_fetch_lem :
      (m : Model H)
      → ((in_state fetch m ≡ true) → Visits decode fetch m (run_to_fetch eval m))
        × ((in_state fetch m ≡ false)
            → (k : ℕ) × (run_to_fetch eval m ≡ iterate eval k m)
              × IsFirst eval (in_state fetch) m max_steps k)
  unfolding run_to_fetch
  run_to_fetch_lem m = (
    λ e. rw e (run_both decode fetch m),
    λ e. rw e (run_until-IsFirst eval max_steps (in_state fetch) m),
  )

  -- `rn execute` always ends. From another state it runs to the first `Execute`; from `Execute` it
  -- runs to the first `Fetch` and from there to the next `Execute`. Each run makes at most 100000
  -- steps.
  pub run_to_execute_lem :
      (m : Model H)
      → ((in_state execute m ≡ true) → Visits fetch execute m (run_to_execute eval m))
        × ((in_state execute m ≡ false)
            → (k : ℕ) × (run_to_execute eval m ≡ iterate eval k m)
              × IsFirst eval (in_state execute) m max_steps k)
  unfolding run_to_execute
  run_to_execute_lem m = (
    λ e. rw e (run_both fetch execute m),
    λ e. rw e (run_until-IsFirst eval max_steps (in_state execute) m),
  )

  -- `rn decode` from `Decode` never ends if the processor never gets to `Execute`: no fuel is
  -- enough, whatever the bound of 100000 steps that the code declares.
  pub run_to_decode_hangs :
      (fuel : ℕ) (m : Model H)
      → in_state decode m ≡ true
      → ((k : ℕ) → in_state execute (iterate eval k m) ≡ false)
      → run_to_decode eval fuel m ≡ none
  unfolding run_to_decode
  run_to_decode_hangs fuel m d h = rw (d, run_unbounded_hangs eval fuel (in_state execute) m h)

  -- If from `Decode` the state after `n` steps is `Execute`, and the fuel is more than `n`, it ends: after the first `Execute` it runs to the next
  -- `Decode`. From another state it runs to the first `Decode` with no such condition.
  pub run_to_decode_ends :
      (n fuel : ℕ) (m : Model H)
      → n < fuel
      → ((in_state decode m ≡ true) → in_state execute (iterate eval n m) ≡ true)
      → (j k : ℕ) × (run_to_decode eval fuel m ≡ some (iterate eval k (iterate eval j m)))
        × IsFirst eval (in_state decode) (iterate eval j m) max_steps k
        × ((in_state decode m ≡ true) → IsFirst eval (in_state execute) m n j)
        × ((in_state decode m ≡ false) → j ≡ 0)
  unfolding run_to_decode iterate
  run_to_decode_ends n fuel m lt h = elim (Bool-cases (in_state decode m)) [
    | inl d ↦
        let (j, out, first) = run_unbounded_ends eval n fuel (in_state execute) m (h d) lt in
        let (k, on, arrives) =
          run_until-IsFirst eval max_steps (in_state decode) (iterate eval j m) in
        (j, k, rw (d, out) (ap some on), arrives, (λ _. first), λ e. absurd (cc (d, e)))
    | inr d ↦
        let (k, on, arrives) = run_until-IsFirst eval max_steps (in_state decode) m in
        (0, k, rw d (ap some on), arrives, (λ e. absurd (cc (d, e))), λ _. refl)
  ]

  -- `rn pc` makes at least one step and at most 100000, and stops at the first one after which
  -- the program counter is the target.
  pub run_to_pc_lem :
      (m : Model H)
      → (k : ℕ) × (run_to_pc eval m ≡ iterate eval (suc k) m)
        × IsFirst eval at_target (step eval m) 99999 k
  unfolding run_to_pc
  run_to_pc_lem m = run_for-IsFirst eval 99999 at_target m
