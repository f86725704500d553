-- ===== src/Tests/Values.antt =====
-- A processor at rest, a terminal, and a console and a model on them, for the tests.
use risc_v_rv32i_multi_cycle.Prelude.{
  ℕ, ◌+◌, false, [], Bytes, negsuc, length, refl, true, arith, pos, codes,
}
use risc_v_rv32i_multi_cycle.Ncurses.{Terminal}
use risc_v_rv32i_multi_cycle.Core.{Core, KeepsInputs}
use risc_v_rv32i_multi_cycle.Model.{Model}
use risc_v_rv32i_multi_cycle.Console.{Console}
use risc_v_rv32i_multi_cycle.Commands.{none_given}
use risc_v_rv32i_multi_cycle.Bench.{App}

abbrev pub terminal : Terminal
terminal = record {
  lines = 50;
  key_backspace = 263;
  key_up = 259;
  key_down = 258;
  key_home = 262;
  acs_s1 = 111;
  color_black = 0;
  color_green = 2;
  color_yellow = 3;
  color_red = 1;
  color_cyan = 6;
  color_white = 7;
  has_colors = true;
  start_color_ok = true;
  can_change_color = true;
  backspace_above = omega arith;
  up_above = omega arith;
  down_above = omega arith;
  home_above = omega arith;
  backspace-ne-up = omega arith;
  backspace-ne-down = omega arith;
  backspace-ne-home = omega arith;
  up-ne-down = omega arith;
  up-ne-home = omega arith;
  down-ne-home = omega arith;
}

-- The processor in the given state of its control matrix, with the given instruction.
abbrev pub core_at : ℕ → ℕ → Core Unit
core_at state word = record {
  clk_i = 0;
  reset_i = 1;
  irq_i = 1;
  ready_o = 0;
  pc_src_out = 0;
  pmmu_out = 0;
  cm_ready = 0;
  state = state;
  next_state = 0;
  vector_state = 0;
  next_vector_state = 0;
  ir_state = 0;
  next_ir_state = 0;
  pc_ld = 0;
  pc_src = 0;
  mem_wr = 0;
  mem_rd = 0;
  addr_src = 0;
  rst_src = 0;
  mstatus = 0;
  mie = 0;
  mip = 0;
  mepc = 0;
  mtvec = 0;
  ir_ld = 0;
  ir = word;
  pc = 0x60;
  pc_prior = 0x5c;
  mdr = 0;
  rsa = 0;
  rsb = 0;
  wd_select = 0;
  wd_out = 0;
  a_select = 0;
  a_out = 0;
  b_select = 0;
  b_out = 0;
  func_op = 0;
  alu_y = 0;
  alu_ld = 0;
  alu_out = 0;
  alu_flags_ld = 0;
  alu_flags = 0;
  imm_o = 0;
  bank = λ i. i;
  mem = λ i. i + 7;
  hidden = tt;
}

-- An evaluation that goes to the next state, and one that keeps everything.
abbrev pub turn : Core Unit → Core Unit
turn c = record c { state = c.state + 1 }

abbrev pub idle : Core Unit → Core Unit
idle c = c

pub turn-KeepsInputs : KeepsInputs turn
turn-KeepsInputs = record { clock = λ c. refl; reset = λ c. refl; irq = λ c. refl }

abbrev pub model_at : ℕ → ℕ → Model Unit
model_at state word = record {
  core = core_at state word;
  from_addr = pos 5;
  mem_addr = pos 0;
  markers = record { p_pc_marker = 0; p_pcp_marker = 0 };
  selected_reg = pos 9;
  target_pc = pos 0x60;
  break_addr = pos 0x60;
  free_run = true;
  break_enabled = true;
  stepping_enabled = true;
  irq_enabled = true;
  irq_prev = 1;
  irq_triggered = true;
  irq_trigger_point = pos 12;
  irq_duration = pos 3;
  irq_cnt = 0;
  time_step_ns = 40;
  time_step_delay_ms = pos 5;
  reset_active = true;
  step_size = pos 20;
  step_cnt = 0;
  sim_running = true;
  p_clk_i = 0;
  dirty = true;
}

-- A console with a line typed in, and a line before it.
abbrev pub console_with : Bytes → Bytes → Console
console_with line last = record {
  key_buffer = line;
  last_cmd = last;
  ch = negsuc 0;
  col = length line + 1;
  exit_console = false;
  cmd = none_given;
  arg1 = codes "2";
  arg2 = codes "0x2A";
  arg3 = [];
  arg4 = [];
  arg5 = [];
  screen = record { calls = []; data_dirty = true; p_clk_state = 1 };
}

abbrev pub app : App Unit
app = record {
  con = console_with [] [];
  mdl = model_at 1 0x73;
  delay_enabled = true;
  looping = true;
}

-- The same with no interrupt requested.
abbrev pub quiet_app : App Unit
quiet_app = record app { mdl = record (model_at 1 0x73) { irq_triggered = false } }
