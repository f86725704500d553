-- ===== src/Model/Stepping.antt =====
-- When the simulation steps (`Model::canStep` and `Model::interruptState`).
use risc_v_rv32i_multi_cycle.Prelude.{
  ℕ, ◌+◌, ◌≤◌, ◌<◌, ◌≡◌, ◌↔◌, ◌⊎◌, true, false, arith, pos, ltb_ℤ,
}
use risc_v_rv32i_multi_cycle.Model.{Model, can_step, at_break, interrupt_state}

module _ {H : Type 0} where
  -- With stepping on, the simulation steps exactly while fewer than `step_size` steps were made;
  -- free running and the break point have no say.
  pub can_step_stepping :
      (m : Model H)
      → m.stepping_enabled ≡ true
      → (can_step m).1 ≡ ltb_ℤ (pos m.step_cnt) m.step_size
  unfolding can_step
  can_step_stepping m h = ground arith

  -- With stepping off, it steps exactly if it runs freely and does not stand at an enabled break
  -- point.
  pub can_step_free :
      (m : Model H)
      → m.stepping_enabled ≡ false
      → ((can_step m).1 ≡ true)
        ↔ ((m.free_run ≡ true) × ((m.break_enabled ≡ false) ⊎ (at_break m ≡ false)))
  unfolding can_step
  can_step_free m h = ground arith

  -- At an enabled break point that free running hits, asking turns the break point and free running
  -- off and has the screen drawn again, and changes nothing else.
  pub can_step_break :
      (m : Model H)
      → m.free_run ≡ true
      → m.break_enabled ≡ true
      → at_break m ≡ true
      → (can_step m).0 ≡ record m { break_enabled = false; free_run = false; dirty = true }
  unfolding can_step
  can_step_break m f b a = ground arith

  pub can_step_elsewhere :
      (m : Model H)
      → (m.free_run ≡ false) ⊎ (m.break_enabled ≡ false) ⊎ (at_break m ≡ false)
      → (can_step m).0 ≡ m
  unfolding can_step
  can_step_elsewhere m h = ground arith

  -- The interrupt line is low exactly in the window of `duration` time steps from the trigger
  -- point on, where neither bound leaves the range of an `int`.
  pub interrupt_state_window :
      (m : Model H) (point duration : ℕ)
      → m.irq_trigger_point ≡ pos point
      → m.irq_duration ≡ pos duration
      → point + duration < 2147483648
      → (interrupt_state m ≡ false)
        ↔ ((point ≤ m.time_step_ns) × (m.time_step_ns < point + duration))
  unfolding interrupt_state
  interrupt_state_window m point duration p d h = rw (p, d) (ground arith)
