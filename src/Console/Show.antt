-- ===== src/Console/Show.antt =====
-- `Console::show` (simulation/ranger_console/console.cpp): every property of the model in its
-- place. The result is `none` if the selected register does not exist.
use risc_v_rv32i_multi_cycle.Prelude.{
  ℕ, ◌-◌, ◌&&◌, Option, none, some, [], ◌∷◌, ◌==◌, if◌then◌else◌, ◌>>=◌, pos, negsuc, codes,
  signed32,
}
use risc_v_rv32i_multi_cycle.Utils.{byte_to_word_addr}
use risc_v_rv32i_multi_cycle.Ncurses.{Terminal, Screen, draw, mvaddstr, ◌▸◌}
use risc_v_rv32i_multi_cycle.RowIndices.{row, row_csr, RowPropId, RowCsrPropId}
use risc_v_rv32i_multi_cycle.Core.{read_word, bank_words}
use risc_v_rv32i_multi_cycle.Model.{Model, Markers, marker_col}
use risc_v_rv32i_multi_cycle.Console.Labels.{
  show_ul_int_property, show_int_property, show_int_as_hex_property, show_bool_property,
  show_register_bin, show_register_int, show_clock_edge, show_cpu_state, show_vector_state,
  show_ir_state, show_alu_op, show_alu_flags_property,
}
use risc_v_rv32i_multi_cycle.Console.Memory.{
  show_reg_file, show_csrs, show_pc_marker, show_pc_prior_marker, four_blanks,
}

module _ {H : Type 0} (t : Terminal) (m : Model H) where
  open m use {core}

  pub show_clock : Screen → Screen
  show_clock =
      let r = row RowPropId.clock_edge in
      if m.p_clk_i == 0 && core.clk_i == 1
      then show_clock_edge t r 1 0
      else if m.p_clk_i == 1 && core.clk_i == 0
      then show_clock_edge t r 1 1
      else show_clock_edge t r 1 2

  pub show_run_state : Screen → Screen
  show_run_state s =
      s
      ▸ show_ul_int_property (row RowPropId.timestep) 1 (codes "timeStep(ns)") m.time_step_ns
      ▸ show_bool_property (row RowPropId.sim_running) 1 (codes "Sim running") m.sim_running
      ▸ show_int_property (row RowPropId.delay_time) 1 (codes "Delay time") m.time_step_delay_ms
      ▸ show_int_property (row RowPropId.step_size) 1 (codes "Step size") m.step_size
      ▸ show_clock

  -- `Nxt State` is first drawn from `vector_state` and then once more from `next_state`.
  pub show_states : Screen → Screen
  show_states s =
      s
      ▸ show_int_property (row RowPropId.ready) 1 (codes "Ready") (signed32 core.cm_ready)
      ▸ show_int_property (row RowPropId.reset) 1 (codes "Reset") (signed32 core.reset_i)
      ▸ show_cpu_state (row RowPropId.state) 1 (codes "State") core.state
      ▸ show_cpu_state (row RowPropId.nx_state) 1 (codes "Nxt State") core.vector_state
      ▸ show_vector_state (row RowPropId.vec_state) 1 (codes "Vec State") core.vector_state
      ▸ show_vector_state (row RowPropId.nx_vec_state) 1 (codes "Nxt Vec-State")
          core.next_vector_state
      ▸ show_int_property (row RowPropId.ready) 1 (codes "Ready") (signed32 core.ready_o)
      ▸ show_int_property (row RowPropId.reset) 1 (codes "Reset") (signed32 core.reset_i)
      ▸ show_cpu_state (row RowPropId.state) 1 (codes "State") core.state
      ▸ show_cpu_state (row RowPropId.nx_state) 1 (codes "Nxt State") core.next_state
      ▸ show_vector_state (row RowPropId.vec_state) 1 (codes "Vec-State") core.vector_state
      ▸ show_vector_state (row RowPropId.nx_vec_state) 1 (codes "Nxt Vec-State")
          core.next_vector_state

  pub show_pcs : Screen → Screen
  show_pcs s =
      s
      ▸ show_int_as_hex_property (row RowPropId.pc) 1 (codes "PC")
          (byte_to_word_addr (signed32 core.pc))
      ▸ show_int_as_hex_property (row RowPropId.pc_prior) 1 (codes "PC-prior")
          (byte_to_word_addr (signed32 core.pc_prior))
      ▸ show_int_property (row RowPropId.pc_ld) 1 (codes "PC_ld") (signed32 core.pc_ld)
      ▸ show_int_property (row RowPropId.pc_src) 1 (codes "PC_src") (signed32 core.pc_src)
      ▸ show_int_as_hex_property (row RowPropId.pc_src_out) 1 (codes "PC_src_out")
          (signed32 core.pc_src_out)

  pub show_memory_path : Screen → Screen
  show_memory_path s =
      s
      ▸ show_int_property (row RowPropId.mem_wr) 1 (codes "Mem_wr") (signed32 core.mem_wr)
      ▸ show_int_property (row RowPropId.mem_rd) 1 (codes "Mem_rd") (signed32 core.mem_rd)
      ▸ show_int_as_hex_property (row RowPropId.pmmu_out) 1 (codes "Pmmu_out")
          (signed32 core.pmmu_out)
      ▸ show_int_as_hex_property (row RowPropId.rsa_out) 1 (codes "RsA") (signed32 core.rsa)
      ▸ show_int_as_hex_property (row RowPropId.rsb_out) 1 (codes "RsB") (signed32 core.rsb)
      ▸ show_int_as_hex_property (row RowPropId.mdr) 1 (codes "MDR") (signed32 core.mdr)
      ▸ show_int_property (row RowPropId.addr_src) 1 (codes "Addr_src") (signed32 core.addr_src)
      ▸ show_int_property (row RowPropId.rst_src) 1 (codes "Rst_src") (signed32 core.rst_src)
      ▸ show_int_property (row RowPropId.delay_time) 1 (codes "Delay time") m.time_step_delay_ms

  pub show_instruction : Screen → Screen
  show_instruction s =
      s
      ▸ show_int_property (row RowPropId.ir_ld) 1 (codes "IR_ld") (signed32 core.ir_ld)
      ▸ show_int_as_hex_property (row RowPropId.ir) 1 (codes "IR") (signed32 core.ir)
      ▸ show_ir_state (row RowPropId.ir_state) 1 (codes "IR-State") core.ir_state
      ▸ show_ir_state (row RowPropId.nx_ir_state) 1 (codes "Nxt IR-State") core.next_ir_state

  pub show_muxes : Screen → Screen
  show_muxes s =
      s
      ▸ show_int_property (row RowPropId.wd_src) 1 (codes "WD_src") (signed32 core.wd_select)
      ▸ show_int_as_hex_property (row RowPropId.wd_src_out) 1 (codes "WD_Src_Out")
          (signed32 core.wd_out)
      ▸ show_int_property (row RowPropId.a_src) 1 (codes "A_src") (signed32 core.a_select)
      ▸ show_int_as_hex_property (row RowPropId.a_mux_out) 1 (codes "A_Mux_Out")
          (signed32 core.a_out)
      ▸ show_int_property (row RowPropId.b_src) 1 (codes "B_src") (signed32 core.b_select)
      ▸ show_int_as_hex_property (row RowPropId.b_mux_out) 1 (codes "B_Mux_Out")
          (signed32 core.b_out)
      ▸ show_int_as_hex_property (row RowPropId.imm_ext_out) 1 (codes "IMM_Ext_Out")
          (signed32 core.imm_o)

  pub show_alu : Screen → Screen
  show_alu s =
      s
      ▸ show_int_as_hex_property (row_csr RowCsrPropId.break_addr) 110 (codes "Break At")
          (byte_to_word_addr m.break_addr)
      ▸ show_alu_op (row_csr RowCsrPropId.alu_op) 110 (codes "ALUOp") core.func_op
      ▸ show_int_as_hex_property (row_csr RowCsrPropId.alu_imm_out) 110 (codes "ALU_Imm_Out")
          (signed32 core.alu_y)
      ▸ show_int_property (row_csr RowCsrPropId.alu_ld) 110 (codes "ALU_ld") (signed32 core.alu_ld)
      ▸ show_int_as_hex_property (row_csr RowCsrPropId.alu_out) 110 (codes "ALU_Out")
          (signed32 core.alu_out)
      ▸ show_int_property (row_csr RowCsrPropId.alu_flags_ld) 110 (codes "ALU_flgs_ld")
          (signed32 core.alu_flags_ld)
      ▸ show_alu_flags_property (row_csr RowCsrPropId.alu_flags) 110 (codes "ALU_Flags")
          core.alu_flags

  pub show_registers : ℕ → Screen → Screen
  show_registers selected s =
      s
      ▸ show_reg_file 2 40 core.bank
      ▸ show_register_bin 37 40 (codes "Reg") (signed32 selected)
      ▸ show_register_int 38 40 (codes "Reg") (signed32 selected)

  pub show_switches : Screen → Screen
  show_switches s =
      s
      ▸ show_csrs 2 110 core
      ▸ show_bool_property (row_csr RowCsrPropId.irq_enabled) 110 (codes "IRQ Enabled")
          m.irq_enabled
      ▸ show_int_property (row_csr RowCsrPropId.irq_trig_pt) 110 (codes "IRQ Trig Pt")
          m.irq_trigger_point
      ▸ show_int_property (row_csr RowCsrPropId.irq_duration) 110 (codes "IRQ Duration")
          m.irq_duration
      ▸ show_bool_property (row_csr RowCsrPropId.irq_triggered) 110 (codes "IRQ Triggered")
          m.irq_triggered
      ▸ show_bool_property (row_csr RowCsrPropId.brk_enabled) 110 (codes "Brk Enabled")
          m.break_enabled
      ▸ show_bool_property (row_csr RowCsrPropId.freerun_enabled) 110 (codes "FreeRun Enabled")
          m.free_run
      ▸ show_bool_property (row_csr RowCsrPropId.stepping_enabled) 110 (codes "Stepping Enabled")
          m.stepping_enabled

  -- The old markers are wiped before the new ones are drawn.
  pub show_markers : Screen → Markers × Screen
  show_markers s = show_pc_prior_marker m (
      show_pc_marker m (
        m.markers,
        draw
            (mvaddstr m.markers.p_pc_marker (marker_col - 1) four_blanks
              ∷ mvaddstr m.markers.p_pcp_marker (marker_col - 1) four_blanks
              ∷ [])
            s,
      ))

  -- `regFile->bank[selectedReg]`: the index becomes a `size_t`.
  abbrev pub selected_word : Option ℕ
  selected_word = elim m.selected_reg [ pos i ↦ read_word bank_words core.bank i | negsuc i ↦ none ]

  unfoldable pub show : Screen → Option (Markers × Screen)
  show s = do
    selected ← selected_word
    some (
        show_markers (
          s
          ▸ show_run_state
          ▸ show_states
          ▸ show_pcs
          ▸ show_memory_path
          ▸ show_instruction
          ▸ show_muxes
          ▸ show_alu
          ▸ show_registers selected
          ▸ show_switches))
