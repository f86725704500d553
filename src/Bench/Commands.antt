-- ===== src/Bench/Commands.antt =====
-- The `switch` of simulation/ranger_console/console_tb.cpp: what each command does.
pub mod Memory
use risc_v_rv32i_multi_cycle.Prelude.{
  ℕ, ◌+◌, Bool, true, false, Option, none, some, List, [], ◌∷◌, ◌||◌, if◌then◌else◌, ◌>>=◌, ℤ, pos,
  negsuc, ◌+ℤ◌, ltb_ℤ, signed32, to_u32, Bytes, codes, eq_text,
}
use risc_v_rv32i_multi_cycle.Utils.{word_to_byte_addr}
use risc_v_rv32i_multi_cycle.Commands.{
  Command, signal, run_to, nstep, hcstep, flstep, halt, mem_range, mem_modify, mem_scroll_up,
  mem_scroll_dwn, set_reg, change_reg, set_pc, set_break, enable_delay, delay_time, enable_free,
  enable_break, enable_stepping, enable_irq, set_irq, set_irq_dur, trigger_irq,
}
use risc_v_rv32i_multi_cycle.Ncurses.{Terminal, draw, mvaddstr}
use risc_v_rv32i_multi_cycle.RowIndices.{row, row_csr, RowPropId, RowCsrPropId}
use risc_v_rv32i_multi_cycle.Core.{Core, Unpacked, read_word, write_word, bank_words}
use risc_v_rv32i_multi_cycle.Model.{Model, half_cycle, full_cycle}
use risc_v_rv32i_multi_cycle.Simulation
use risc_v_rv32i_multi_cycle.Console.{Console, get_arg1_int, get_arg2_int, get_arg1_bool}
use risc_v_rv32i_multi_cycle.Console.Labels.{
  show_int_property, show_int_as_hex_property, show_register_bin, show_register_int,
}
use risc_v_rv32i_multi_cycle.Console.Memory.{show_reg_file}
use risc_v_rv32i_multi_cycle.Bench.{App, store, drawn, redraw_memory, redraw_markers, redraw}
use risc_v_rv32i_multi_cycle.Bench.Load.{load_prog}

-- An index of the register bank; it becomes a `size_t`.
abbrev bank_read : Unpacked → ℤ → Option ℕ
bank_read bank (pos i) = read_word bank_words bank i
bank_read bank (negsuc i) = none

abbrev bank_write : Unpacked → ℤ → ℤ → Option Unpacked
bank_write bank (pos i) value = write_word bank_words bank i (to_u32 value)
bank_write bank (negsuc i) value = none

abbrev pub row_above : ℤ → ℤ
row_above n = let d = n +ℤ negsuc 0 in if ltb_ℤ d (pos 0) then pos 0 else d

abbrev pub row_below : ℤ → ℤ
row_below n = let d = n +ℤ pos 1 in if ltb_ℤ (pos 1023) d then pos 1023 else d

module _ {H : Type 0} where
  abbrev pub with_model : App H → Model H → App H
  with_model a m = record a { mdl = m }

  -- `stepCnt` starts again.
  unfoldable pub set_step_size : ℤ → App H → App H
  unfolding show_int_property
  set_step_size n a =
      drawn (show_int_property (row RowPropId.step_size) 1 (codes "Step size") n)
        (with_model a (record a.mdl { step_cnt = 0; step_size = n }))

  -- The memory and the markers from another address on.
  unfoldable pub scroll_to : ℤ → App H → Option (App H)
  unfolding redraw_memory redraw_markers
  scroll_to n a = do
    b ← redraw_memory (with_model a (record a.mdl { from_addr = n }))
    some (redraw_markers b)

  -- The address is made a byte address, and the memory is indexed by it.
  unfoldable pub modify_memory : App H → Option (App H)
  unfolding get_arg1_int get_arg2_int word_to_byte_addr store redraw_memory
  modify_memory a = do
    n ← get_arg1_int a.con
    value ← get_arg2_int a.con
    let addr = word_to_byte_addr n in
        (do
          m ← store addr value a.mdl.core.mem
          redraw_memory (
              with_model a
                (record a.mdl { mem_addr = addr; core = record a.mdl.core { mem = m } })))

  unfoldable pub select_register : App H → Option (App H)
  unfolding get_arg1_int show_register_bin show_register_int
  select_register a = do
    n ← get_arg1_int a.con
    w ← bank_read a.mdl.core.bank n
    some (
        drawn
          (λ s.
            show_register_int 38 40 (codes "Reg") (signed32 w)
              (show_register_bin 37 40 (codes "Reg") (signed32 w) s))
          (with_model a (record a.mdl { selected_reg = n })))

  unfoldable pub change_register : App H → Option (App H)
  unfolding get_arg1_int get_arg2_int show_reg_file
  change_register a = do
    n ← get_arg1_int a.con
    value ← get_arg2_int a.con
    bank ← bank_write a.mdl.core.bank n value
    some (
        drawn (show_reg_file 2 40 bank)
          (with_model a (record a.mdl { core = record a.mdl.core { bank = bank } })))

  unfoldable pub set_program_counter : App H → Option (App H)
  unfolding get_arg1_int word_to_byte_addr show_int_as_hex_property redraw_markers
  set_program_counter a = do
    n ← get_arg1_int a.con
    let m = a.mdl in
        (let c = record m.core { pc_prior = m.core.pc; pc = to_u32 (word_to_byte_addr n) } in
          some (
            redraw_markers (
              drawn (show_int_as_hex_property (row RowPropId.pc) 1 (codes "PC") (signed32 c.pc)) (
                with_model a (record m {
                  core = c;
                  markers = record m.markers { p_pcp_marker = m.markers.p_pc_marker };
                })))))

  unfoldable pub set_break_point : App H → Option (App H)
  unfolding get_arg1_int word_to_byte_addr show_int_as_hex_property
  set_break_point a = do
    n ← get_arg1_int a.con
    let addr = word_to_byte_addr n in
        some (
          drawn
            (show_int_as_hex_property (row_csr RowCsrPropId.break_addr) 100 (codes "Break At") addr)
            (with_model a (record a.mdl { break_addr = addr })))

module _ {H : Type 0} (t : Terminal) (eval : Core H → Core H) where
  -- `sg reset`
  unfoldable pub signal_reset : App H → Option (App H)
  unfolding get_arg1_bool draw Simulation.reset redraw
  signal_reset a =
      if eq_text a.con.arg1 (codes "reset")
      then (do
        m ← Simulation.reset eval a.mdl
        redraw t (with_model (drawn (draw (mvaddstr 0 100 (codes "--- Resetting ---") ∷ [])) a) m))
      else some a

  -- The fuel is for the loop of `run_to_decode` that has no bound of its own.
  run_model : ℕ → App H → Option (Model H)
  unfolding get_arg2_int word_to_byte_addr Simulation.run_to_fetch Simulation.run_to_decode
      Simulation.run_to_execute Simulation.run_to_ebreak Simulation.run_to_pc
  run_model fuel a =
      let arg = a.con.arg1 in
      if eq_text arg (codes "fetch") || eq_text arg (codes "fe")
      then some (Simulation.run_to_fetch eval a.mdl)
      else if eq_text arg (codes "decode") || eq_text arg (codes "de")
      then Simulation.run_to_decode eval fuel a.mdl
      else if eq_text arg (codes "execute") || eq_text arg (codes "ex")
      then some (Simulation.run_to_execute eval a.mdl)
      else if eq_text arg (codes "ebreak") || eq_text arg (codes "eb")
      then some (Simulation.run_to_ebreak eval a.mdl)
      else if eq_text arg (codes "pc")
      then (do
        n ← get_arg2_int a.con
        some (Simulation.run_to_pc eval (record a.mdl { target_pc = word_to_byte_addr n })))
      else some a.mdl

  unfoldable pub run_to_target : ℕ → App H → Option (App H)
  unfolding run_model redraw
  run_to_target fuel a = do m ← run_model fuel a; redraw t (with_model a m)

  -- A setting, after which everything is drawn again.
  abbrev pub set_bool : (Bool → Model H → Model H) → App H → Option (App H)
  set_bool f a = redraw t (with_model a (f (get_arg1_bool a.con) a.mdl))

  abbrev pub set_int : (ℤ → Model H → Model H) → App H → Option (App H)
  set_int f a = do n ← get_arg1_int a.con; redraw t (with_model a (f n a.mdl))

  -- The `switch`; `Exit` is tested before it.
  unfoldable pub do_command : (Bytes → Option (List Bytes)) → ℕ → Command → App H → Option (App H)
  unfolding get_arg1_int get_arg1_bool set_step_size scroll_to modify_memory select_register
      change_register set_program_counter set_break_point signal_reset run_to_target redraw
      load_prog
  do_command files fuel signal a = signal_reset a
  do_command files fuel run_to a = run_to_target fuel a
  do_command files fuel nstep a = some (set_step_size (pos 1) a)
  do_command files fuel hcstep a = some (set_step_size (pos half_cycle) a)
  do_command files fuel flstep a = some (set_step_size (pos full_cycle) a)
  do_command files fuel Command.set_step_size a = do
    n ← get_arg1_int a.con
    some (set_step_size n a)
  do_command files fuel halt a = some (set_step_size (pos 0) a)
  do_command files fuel mem_range a = do n ← get_arg1_int a.con; scroll_to n a
  do_command files fuel mem_modify a = modify_memory a
  do_command files fuel mem_scroll_up a = scroll_to (row_above a.mdl.from_addr) a
  do_command files fuel mem_scroll_dwn a = scroll_to (row_below a.mdl.from_addr) a
  do_command files fuel set_reg a = select_register a
  do_command files fuel change_reg a = change_register a
  do_command files fuel set_pc a = set_program_counter a
  do_command files fuel set_break a = set_break_point a
  do_command files fuel Command.load_prog a = load_prog files a
  do_command files fuel enable_delay a = some (record a { delay_enabled = get_arg1_bool a.con })
  do_command files fuel delay_time a = set_int (λ n m. record m { time_step_delay_ms = n }) a
  do_command files fuel enable_free a = set_bool (λ b m. record m { free_run = b }) a
  do_command files fuel enable_break a = set_bool (λ b m. record m { break_enabled = b }) a
  do_command files fuel enable_stepping a = set_bool (λ b m. record m { stepping_enabled = b }) a
  do_command files fuel enable_irq a = set_bool (λ b m. record m { irq_enabled = b }) a
  do_command files fuel set_irq a = set_int (λ n m. record m { irq_trigger_point = n }) a
  do_command files fuel set_irq_dur a = set_int (λ n m. record m { irq_duration = n }) a
  do_command files fuel trigger_irq a = some (
      with_model a (record a.mdl {
        irq_cnt = 0;
        irq_triggered = true;
        core = record a.mdl.core { irq_i = 0 };
      }))
  do_command files fuel _ a = some a
