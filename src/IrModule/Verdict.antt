-- ===== src/IrModule/Verdict.antt =====
-- When the program of simulation/instruction_register succeeds.
use risc_v_rv32i_multi_cycle.Prelude.{
  ℕ, zero, suc, ◌+◌, ◌-◌, ◌≡◌, refl, ap, ◌∙◌, Bool, true, false, ◌&&◌, not, List, ◌==◌, Bytes,
  if◌then◌else◌, arith,
}
use risc_v_rv32i_multi_cycle.Pmmu.Bench.{hex}
use risc_v_rv32i_multi_cycle.ResetSequence.{ResettableLaws, run_on}
use risc_v_rv32i_multi_cycle.ResetSequence.Pulse.{reset_sequence_lem}
use risc_v_rv32i_multi_cycle.IrModule.{
  IrModule, States, Checked, Exited, ir_lines, checked_reset, fetch_rounds, fetch_sequence, fetched,
  ir_main, lines_before,
}

module _ {H : Type 0} (eval : IrModule H → IrModule H) (states : States) where
  -- What the four assertions behind the reset ask for.
  abbrev pub passes : IrModule H → Bool
  passes u =
      u.vector_state == states.vector0
      && u.next_vector_state == states.vector1
      && not (u.reset_complete == 1)
      && not (u.ready == 1)

  rounds_time :
      (n time before : ℕ) (reached : Bool) (d : IrModule H)
      → (fetch_rounds eval states n time before reached d).time_step ≡ time + n
  unfolding fetch_rounds
  rounds_time zero time before reached d = omega arith
  rounds_time (suc n) time before reached d = rounds_time n (suc time) _ _ _ ∙ later
    where
      later : suc time + n ≡ time + suc n
      later = omega arith

  run_on_time :
      (n time : ℕ) (d : IrModule H) → (run_on (ir_lines eval states) n time d).time_step ≡ time + n
  unfolding run_on
  run_on_time zero time d = omega arith
  run_on_time (suc n) time d = run_on_time n (suc time) _ ∙ later
    where
      later : suc time + n ≡ time + suc n
      later = omega arith

  fetch_time : (t : ℕ) (d : IrModule H) → (fetch_sequence eval states t t 45 d).time_step ≡ t + 101
  unfolding fetch_sequence
  fetch_time t d = rounds_time (t + 100 + 1 - t) t _ false _ ∙ rounds
    where
      rounds : t + (t + 100 + 1 - t) ≡ t + 101
      rounds = omega arith

  -- The exit code and the time, from the verdict of the assertions.
  Ends : Bool → Exited H → Type 0
  Ends b o = (o.code ≡ (if b then 0 else 1)) × (o.time_step ≡ (if b then 231 else 55))

  decided :
      (b : Bool) (failure lines : List Bytes) (s : Checked H)
      → s.time_step ≡ 55
      → Ends b (
          if not b
          then record { lines = failure; code = 1; time_step = s.time_step; unit = s.unit }
          else fetched eval states lines s)
  unfolding fetched Ends
  decided false failure lines s e = (refl, e)
  decided true failure lines s e = (
    refl,
    run_on_time 75 f.time_step f.unit
        ∙ ap (λ t. t + 75) (fetch_time s.time_step s.unit)
        ∙ ap (λ t. t + 101 + 75) e,
  )
    where
      f : Checked H
      f = fetch_sequence eval states s.time_step s.time_step 45 s.unit

  -- Over a design that leaves the reset alone, the program ends with EXIT_SUCCESS, at time 231, exactly if
  -- the design that the reset sequence leaves, at time 55, has the vector states Vector0 and Vector1 and
  -- neither `resetComplete` nor `ready` at 1; else it ends there with EXIT_FAILURE.
  pub ir_main_lem :
      (d : IrModule H)
      → ResettableLaws (ir_lines eval states)
      → let s = checked_reset eval states 0 10 45 (eval d) in
        let o = ir_main eval states d in
        (s.time_step ≡ 55)
        × (o.code ≡ (if passes s.unit then 0 else 1))
        × (o.time_step ≡ (if passes s.unit then 231 else 55))
  unfolding ir_main checked_reset Ends
  ir_main_lem d laws =
      let r =
        reset_sequence_lem (ir_lines eval states) laws hex 0 10 45 (eval d).reset_i
          (record (eval d) { mem_busy_i = 0; ir_i = 0 }) (omega arith) refl in
      let (c, t) =
        decided (passes (checked_reset eval states 0 10 45 (eval d)).unit) _
          (lines_before (eval d) (checked_reset eval states 0 10 45 (eval d)))
          (checked_reset eval states 0 10 45 (eval d)) r.1 in
      (r.1, c, t)
