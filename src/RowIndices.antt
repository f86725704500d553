-- ===== src/RowIndices.antt =====
-- simulation/ranger_console/row_indices.h: the rows of the two columns of properties.
use risc_v_rv32i_multi_cycle.Prelude.{ℕ}

pub data RowPropId : Type 0 where
  timestep sim_running delay_time step_size clock_edge ready reset state nx_state vec_state :
      RowPropId
  nx_vec_state pc pc_prior pc_ld pc_src pc_src_out mem_wr mem_rd pmmu_out rsa_out rsb_out :
      RowPropId
  mdr addr_src rst_src ir_ld ir ir_state nx_ir_state wd_src wd_src_out a_src a_mux_out : RowPropId
  b_src b_mux_out imm_ext_out : RowPropId

-- The enumerators count up from `Timestep = 2`.
abbrev pub row : RowPropId → ℕ
row timestep = 2
row sim_running = 3
row delay_time = 4
row step_size = 5
row clock_edge = 6
row ready = 7
row reset = 8
row state = 9
row nx_state = 10
row vec_state = 11
row nx_vec_state = 12
row pc = 13
row pc_prior = 14
row pc_ld = 15
row pc_src = 16
row pc_src_out = 17
row mem_wr = 18
row mem_rd = 19
row pmmu_out = 20
row rsa_out = 21
row rsb_out = 22
row mdr = 23
row addr_src = 24
row rst_src = 25
row ir_ld = 26
row ir = 27
row ir_state = 28
row nx_ir_state = 29
row wd_src = 30
row wd_src_out = 31
row a_src = 32
row a_mux_out = 33
row b_src = 34
row b_mux_out = 35
row imm_ext_out = 36

pub data RowCsrPropId : Type 0 where
  break_addr irq_trig_pt irq_duration irq_enabled irq_triggered brk_enabled : RowCsrPropId
  freerun_enabled stepping_enabled skip_line alu_op alu_imm_out alu_ld alu_out : RowCsrPropId
  alu_flags_ld alu_flags : RowCsrPropId

-- The enumerators count up from `BREAK_ADDR = 9`.
abbrev pub row_csr : RowCsrPropId → ℕ
row_csr break_addr = 9
row_csr irq_trig_pt = 10
row_csr irq_duration = 11
row_csr irq_enabled = 12
row_csr irq_triggered = 13
row_csr brk_enabled = 14
row_csr freerun_enabled = 15
row_csr stepping_enabled = 16
row_csr skip_line = 17
row_csr alu_op = 18
row_csr alu_imm_out = 19
row_csr alu_ld = 20
row_csr alu_out = 21
row_csr alu_flags_ld = 22
row_csr alu_flags = 23
