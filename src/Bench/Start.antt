-- ===== src/Bench/Start.antt =====
-- The state in which `main` enters its loop (simulation/ranger_console/console_tb.cpp).
use risc_v_rv32i_multi_cycle.Prelude.{
  ℕ, ◌<◌, ◌≡◌, refl, ap, ◌∙◌, false, some, ◌>>=◌, pos, arith, w32,
}
use risc_v_rv32i_multi_cycle.Ncurses.{Terminal}
use risc_v_rv32i_multi_cycle.Core.{Core}
use risc_v_rv32i_multi_cycle.Bench.{App, startup, prepared, redraw}
use risc_v_rv32i_multi_cycle.Bench.Commands.Memory.{redraw_memory_lem}
use risc_v_rv32i_multi_cycle.Bench.Rounds.Refinement.{Selected, redraw_lem}

module _ {H : Type 0} (t : Terminal) (eval : Core H → Core H) where
  -- The program starts for every processor whose memory holds words of 32 bits after the first
  -- evaluation, which sees the clock low: in the loop the reset and interrupt lines are high, one
  -- time step has passed, the break point is at word 0x60, and neither free running nor stepping is
  -- on.
  pub startup_lem :
      (c : Core H)
      → ((j : ℕ) → j < 1024 → (eval (record c { clk_i = 0 })).mem j < w32)
      → (a : App H) × (startup t eval c ≡ some a)
        × (a.mdl.core ≡ record (eval (record c { clk_i = 0 })) { irq_i = 1; reset_i = 1 })
        × (a.mdl.time_step_ns ≡ 1)
        × (a.mdl.break_addr ≡ pos 0x180)
        × (a.mdl.free_run ≡ false)
        × (a.mdl.stepping_enabled ≡ false)
  unfolding startup prepared
  startup_lem c w =
      let (b, dumped, same) = redraw_memory_lem (prepared t eval c) w in
      let (a, shown, (_, is)) = redraw_lem t eval (prepared t eval c).mdl b first (_, same) in
      (
        a,
        ap (λ o. o >>= redraw t) dumped ∙ shown,
        ap (λ m. m.core) is,
        ap (λ m. m.time_step_ns) is,
        ap (λ m. m.break_addr) is,
        ap (λ m. m.free_run) is,
        ap (λ m. m.stepping_enabled) is,
      )
    where
      first : Selected (prepared t eval c).mdl
      first = record { index = 0; is_index = refl; in_bank = omega arith }
