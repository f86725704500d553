-- ===== src/Commands.antt =====
-- simulation/ranger_console/commands.h and the states that `Simulation` asks for
-- (definitions/TypeEnums.sv).
use risc_v_rv32i_multi_cycle.Prelude.{ℕ}

pub data Command : Type 0 where
  none_given exit reset stop run : Command
  -- one time step, half a clock cycle, a full clock cycle
  nstep hcstep flstep : Command
  signal set_reg change_reg enable_sim enable_delay delay_time mem_range mem_modify : Command
  load_prog set_pc set_break mem_scroll_up mem_scroll_dwn run_to set_step_size halt : Command
  enable_free enable_break enable_stepping enable_irq set_irq set_irq_dur trigger_irq : Command

-- `MatrixState`, the states of the control matrix
abbrev pub fetch : ℕ
fetch = 1

abbrev pub decode : ℕ
decode = 2

abbrev pub execute : ℕ
execute = 3
