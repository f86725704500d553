-- ===== src/Bench/Rounds.antt =====
-- The loop of `main` (simulation/ranger_console/console_tb.cpp): a round polls the keyboard once,
-- does the command, and lets the simulation go one time step further or rest.
pub mod Refinement
pub mod Pulse
pub mod Counting
pub mod Exit
use risc_v_rv32i_multi_cycle.Prelude.{
  ℕ, suc, ◌+◌, Bool, true, false, ◌&&◌, Option, none, some, List, [], ◌∷◌, leb, if◌then◌else◌,
  ◌>>=◌, ℤ, pos, ltb_ℤ, drop, replicate, Bytes, codes,
}
use risc_v_rv32i_multi_cycle.Commands.{Command, exit}
use risc_v_rv32i_multi_cycle.Ncurses.{Terminal, Call, draw, mvaddstr, napms, puts}
use risc_v_rv32i_multi_cycle.RowIndices.{row, RowPropId}
use risc_v_rv32i_multi_cycle.Core.{Core}
use risc_v_rv32i_multi_cycle.Model.{Model, can_step, is_dirty, set_dirty}
use risc_v_rv32i_multi_cycle.Simulation
use risc_v_rv32i_multi_cycle.Console.{Console, delete}
use risc_v_rv32i_multi_cycle.Console
use risc_v_rv32i_multi_cycle.Console.Input.{handle_input}
use risc_v_rv32i_multi_cycle.Console.Labels.{show_bool_property}
use risc_v_rv32i_multi_cycle.Bench.{App, drawn, redraw}
use risc_v_rv32i_multi_cycle.Bench.Commands.{do_command, with_model}

abbrev pub with_irq : {H : Type 0} → ℕ → Model H → Model H
with_irq v m = record m { core = record m.core { irq_i = v } }

-- `"TRIGGERED: " + mdl.irqCnt` moves the pointer to the literal; behind its end it is undefined.
abbrev triggered_message : ℕ → Option Bytes
triggered_message n = if leb n 11 then some (drop n (codes "TRIGGERED: ")) else none

module _ {H : Type 0} where
  -- The interrupt line of this time step.
  unfoldable pub interrupt : App H → Option (App H)
  unfolding draw
  interrupt a =
      let m = a.mdl in
      if m.irq_enabled && m.irq_triggered
      then (if ltb_ℤ m.irq_duration (pos m.irq_cnt)
          then some (
              with_model (drawn (draw (mvaddstr 0 100 (replicate 16 32) ∷ [])) a)
                (record m { irq_triggered = false; irq_cnt = 0 }))
          else (do
            text ← triggered_message m.irq_cnt
            some (
                with_model (drawn (draw (mvaddstr 0 100 text ∷ [])) a)
                  (with_irq 0 (record m { irq_cnt = m.irq_cnt + 1 })))))
      else some a

  module _ (t : Terminal) (eval : Core H → Core H) where
    -- The branch that steps.
    stepped : App H → Option (App H)
    unfolding interrupt Simulation.begin redraw Simulation.update
    stepped a = do
      b ← interrupt a
      let m = Simulation.begin b.mdl in
          (do
            c ← redraw t (with_model b (record m { core = eval m.core }))
            some (with_model c (Simulation.update c.mdl)))

    -- The branch that rests.
    rested : App H → App H
    unfolding Simulation.end show_bool_property
    rested a =
        let m = Simulation.end a.mdl in
        drawn (show_bool_property (row RowPropId.sim_running) 1 (codes "Sim running") m.sim_running)
          (with_model a m)

    cleaned : App H → Option (App H)
    unfolding is_dirty set_dirty redraw
    cleaned a = if is_dirty a.mdl then redraw t (with_model a (set_dirty false a.mdl)) else some a

    pause : App H → App H
    unfolding Console.update draw
    pause a =
        let b = record a { con = Console.update t a.con } in
        if a.delay_enabled then drawn (draw (napms a.mdl.time_step_delay_ms ∷ [])) b else b

    -- What follows the `switch`.
    unfoldable pub tick : App H → Option (App H)
    unfolding can_step stepped rested cleaned pause
    tick a =
        let (m, go) = can_step (with_irq 1 a.mdl) in
        do
          b ← if go then stepped (with_model a m) else some (rested (with_model a m))
          c ← cleaned b
          some (pause c)

    module _ (files : Bytes → Option (List Bytes)) (fuel : ℕ) where
      abbrev pub obey : Command → App H → Option (App H)
      obey exit a = some (record a { looping = false })
      obey k a = do b ← do_command t eval files fuel k a; tick b

      -- The body of the loop; `key` is what `getch` answers.
      unfoldable pub round : ℤ → App H → Option (App H)
      unfolding handle_input do_command tick
      round key a = do (con, k) ← handle_input t key a.con; obey k (record a { con = con })

      -- The loop, for the keys that are polled, and what `main` prints at the end.
      pub loop : List ℤ → App H → Option (App H)
      unfolding round
      loop [] a = some a
      loop (key ∷ keys) a = do b ← round key a; if b.looping then loop keys b else some b

    unfoldable pub finish : App H → App H
    unfolding delete draw
    finish a =
        drawn
          (λ s. draw (puts (codes "Finishing TB.") ∷ puts (codes "Shutting down") ∷ []) (delete s))
          a
