-- ===== src/Model.antt =====
-- simulation/ranger_console/model.h: the state of the simulation, whether it may step, and the
-- interrupt line as a function of the time.
pub mod Stepping
use risc_v_rv32i_multi_cycle.Prelude.{
  ℕ, ◌+◌, Bool, true, false, ◌&&◌, not, ltb, leb, ◌==◌, if◌then◌else◌, ℤ, pos, ◌+ℤ◌, ltb_ℤ, to_u32,
  to_u64,
}
use risc_v_rv32i_multi_cycle.Core.{Core}

-- The rows at which the two markers were last drawn.
pub record Markers : Type 0 where
  pub p_pc_marker : ℕ
  pub p_pcp_marker : ℕ

-- Counters that only count up from 0 are native numbers.
pub record Model (H : Type 0) : Type 0 where
  pub core : Core H
  pub from_addr : ℤ
  pub mem_addr : ℤ
  pub markers : Markers
  pub selected_reg : ℤ
  pub target_pc : ℤ
  pub break_addr : ℤ
  pub free_run : Bool
  pub break_enabled : Bool
  pub stepping_enabled : Bool
  pub irq_enabled : Bool
  pub irq_prev : ℕ
  pub irq_triggered : Bool
  pub irq_trigger_point : ℤ
  pub irq_duration : ℤ
  pub irq_cnt : ℕ
  pub time_step_ns : ℕ
  pub time_step_delay_ms : ℤ
  pub reset_active : Bool
  pub step_size : ℤ
  pub step_cnt : ℕ
  pub sim_running : Bool
  pub p_clk_i : ℕ
  pub dirty : Bool

abbrev pub marker_col : ℕ
marker_col = 67

abbrev pub row_offset : ℕ
row_offset = 3

abbrev pub full_cycle : ℕ
full_cycle = 20

abbrev pub half_cycle : ℕ
half_cycle = 10

module _ {H : Type 0} where
  -- The constructor. `memAddr` has no initial value there; it is written before it is read.
  unfoldable pub new : Core H → Model H
  new c = record {
    core = c;
    from_addr = pos 0;
    mem_addr = pos 0;
    markers = record { p_pc_marker = 0; p_pcp_marker = 0 };
    selected_reg = pos 0;
    target_pc = pos 0;
    break_addr = pos 0;
    free_run = false;
    break_enabled = false;
    stepping_enabled = false;
    irq_enabled = true;
    irq_prev = 1;
    irq_triggered = false;
    irq_trigger_point = pos 0;
    irq_duration = pos 3;
    irq_cnt = 0;
    time_step_ns = 0;
    time_step_delay_ms = pos 5;
    reset_active = false;
    step_size = pos 0;
    step_cnt = 0;
    sim_running = false;
    p_clk_i = c.clk_i;
    dirty = true;
  }

  -- `breakAddr == pc->data_o` compares as `uint32_t`.
  abbrev pub at_break : Model H → Bool
  at_break m = to_u32 m.break_addr == m.core.pc

  -- The body of `if (freeRun)`: the model, and `step` so far.
  free_running : Model H → Model H × Bool
  free_running m =
      if m.free_run
      then (if m.break_enabled
          then (if at_break m
              then (record m { break_enabled = false; free_run = false; dirty = true }, false)
              else (m, true))
          else (m, true))
      else (m, false)

  -- Stepping overrides what free running decided: `stepCnt >= stepSize` stops.
  unfoldable pub can_step : Model H → Model H × Bool
  unfolding free_running
  can_step m =
      let (m', step) = free_running m in
      (m', if m'.stepping_enabled then ltb_ℤ (pos m'.step_cnt) m'.step_size else step)

  -- The time is a `vluint64_t`, so the trigger point and its end are compared as such.
  unfoldable pub interrupt_state : Model H → Bool
  interrupt_state m = not (
      leb (to_u64 m.irq_trigger_point) m.time_step_ns
      && ltb m.time_step_ns (to_u64 (m.irq_trigger_point +ℤ m.irq_duration)))

  unfoldable pub is_dirty : Model H → Bool
  is_dirty m = m.dirty

  unfoldable pub set_dirty : Bool → Model H → Model H
  set_dirty v m = record m { dirty = v }
