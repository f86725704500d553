-- ===== src/Bench.antt =====
-- simulation/ranger_console/console_tb.cpp: `main`, as a state that each round of its loop takes
-- one step further. Here its variables, its start, and the redraws that many commands share; the
-- commands, the interrupt line and the rounds are below. `none` stands for undefined behaviour.
pub mod Load
pub mod Commands
pub mod Rounds
pub mod Start
use risc_v_rv32i_multi_cycle.Prelude.{
  ℕ, zero, suc, ◌+◌, Bool, true, false, Option, none, some, ◌>>=◌, ℤ, pos, negsuc, to_u32,
}
use risc_v_rv32i_multi_cycle.Utils.{word_to_byte_addr}
use risc_v_rv32i_multi_cycle.Ncurses.{Terminal, Screen}
use risc_v_rv32i_multi_cycle.Core.{Core, Unpacked, write_word, mem_words}
use risc_v_rv32i_multi_cycle.Model.{Model, Markers}
use risc_v_rv32i_multi_cycle.Model
use risc_v_rv32i_multi_cycle.Console.{Console, init, start}
use risc_v_rv32i_multi_cycle.Console
use risc_v_rv32i_multi_cycle.Console.Memory.{
  show_memory, clear_pc_marker_col, show_pc_marker, show_pc_prior_marker,
}
use risc_v_rv32i_multi_cycle.Console.Show.{show}

-- The local variables of `main`; `simRunning` is never read.
pub record App (H : Type 0) : Type 0 where
  pub con : Console
  pub mdl : Model H
  pub delay_enabled : Bool
  pub looping : Bool

-- `mem[i] = value` for an `int` index: outside of the memory it is undefined.
unfoldable pub store : ℤ → ℤ → Unpacked → Option Unpacked
unfolding write_word
store (pos i) value m = write_word mem_words m i (to_u32 value)
store (negsuc i) value m = none

module _ {H : Type 0} where
  -- A method of the console that only draws.
  abbrev pub drawn : (Screen → Screen) → App H → App H
  drawn f a = record a { con = record a.con { screen = f a.con.screen } }

  -- `con->showMemory(2, 70, mdl.fromAddr, 1024, mdl.bram->mem)`
  unfoldable pub redraw_memory : App H → Option (App H)
  unfolding show_memory
  redraw_memory a = do
    s ← show_memory 2 70 a.mdl.from_addr mem_words a.mdl.core.mem a.con.screen
    some (record a { con = record a.con { screen = s } })

  -- The three calls that draw the markers again.
  unfoldable pub redraw_markers : App H → App H
  unfolding clear_pc_marker_col show_pc_marker show_pc_prior_marker
  redraw_markers a =
      let (k, s) =
        show_pc_prior_marker a.mdl
          (show_pc_marker a.mdl (a.mdl.markers, clear_pc_marker_col 3 32 a.con.screen)) in
      record a { con = record a.con { screen = s }; mdl = record a.mdl { markers = k } }

  module _ (t : Terminal) where
    -- `con->show(mdl)`
    unfoldable pub redraw : App H → Option (App H)
    unfolding show
    redraw a = do
      (k, s) ← show t a.mdl a.con.screen
      some (record a { con = record a.con { screen = s }; mdl = record a.mdl { markers = k } })

    -- The variables of `main` when the first memory dump is drawn.
    unfoldable pub prepared : (Core H → Core H) → Core H → App H
    unfolding Model.new Console.new init start word_to_byte_addr
    prepared eval c =
        let m = Model.new c in
        let low = record m { core = eval (record c { clk_i = 0 }); time_step_ns = 1 } in
        let blank = Console.new in
        let con = start t (record blank { screen = (init t blank.screen).1 }) in
        let mdl = record low {
          core = record low.core { irq_i = 1; reset_i = 1 };
          irq_prev = 1;
          break_addr = word_to_byte_addr (pos 0x060);
          irq_trigger_point = pos 1202;
        } in
        record { con = con; mdl = mdl; delay_enabled = true; looping = true }

    -- What `main` does before the loop.
    unfoldable pub startup : (Core H → Core H) → Core H → Option (App H)
    unfolding prepared redraw_memory redraw
    startup eval c = do a ← redraw_memory (prepared eval c); redraw a
