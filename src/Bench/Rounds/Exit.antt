-- ===== src/Bench/Rounds/Exit.antt =====
-- The end of the loop of `main`, and its rounds with no key (simulation/ranger_console/console_tb.cpp).
use risc_v_rv32i_multi_cycle.Prelude.{
  ℕ, zero, suc, ◌+◌, ◌≤◌, ◌<◌, ◌≡◌, refl, ap, ◌∙◌, true, false, Bool, Option, some, List, ◌∷◌, ◌++◌,
  replicate, ℤ, pos, negsuc, Bytes, ltb, if◌then◌else◌, subst, sym, w64, arith,
}
use mathlib.Core.Option.{some-injective}
use risc_v_rv32i_multi_cycle.Simulation
use mathlib.Core.Option.{some-injective}
use risc_v_rv32i_multi_cycle.Simulation
use risc_v_rv32i_multi_cycle.TestBench.Loops.{bind_inv}
use risc_v_rv32i_multi_cycle.Commands.{none_given}
use risc_v_rv32i_multi_cycle.Ncurses.{Terminal}
use risc_v_rv32i_multi_cycle.Core.{Core}
use risc_v_rv32i_multi_cycle.Model.{Model, can_step, set_dirty}
use risc_v_rv32i_multi_cycle.Console.Input.{handle_input}
use risc_v_rv32i_multi_cycle.Bench.{App, redraw}
use risc_v_rv32i_multi_cycle.Bench.Commands.{do_command, with_model}
use risc_v_rv32i_multi_cycle.Bench.Rounds.{
  tick, round, loop, interrupt, stepped, cleaned, rested, pause, with_irq,
}
use risc_v_rv32i_multi_cycle.Bench.Rounds.Refinement.{Selected, advance, tick_lem}
use risc_v_rv32i_multi_cycle.Bench.Rounds.Counting.{
  Counted, advance-Counted, markers-Counted, start-Counted,
}

module _ {H : Type 0} where
  -- Whether the loop goes on is not touched by what follows the `switch`.
  interrupt-looping : (a b : App H) → interrupt a ≡ some b → b.looping ≡ a.looping
  unfolding interrupt
  interrupt-looping a b h = ground (arith, h)

  with_model-looping :
      (a b : App H) (m : Model H) → some (with_model a m) ≡ some b → b.looping ≡ a.looping
  with_model-looping a b m h = ap (λ x. x.looping) (sym (some-injective (with_model a m) b h))

  module _ (t : Terminal) (eval : Core H → Core H) where
    redraw-looping : (a b : App H) → redraw t a ≡ some b → b.looping ≡ a.looping
    unfolding redraw
    redraw-looping a b h = ground (arith, h)

    stepped-looping : (a b : App H) → stepped t eval a ≡ some b → b.looping ≡ a.looping
    unfolding stepped
    stepped-looping a b h =
        let (c, e, h') = bind_inv (interrupt a) _ b h in
        let m : Model H = Simulation.begin c.mdl in
        let (d, e', h'') =
          bind_inv (redraw t (with_model c (record m { core = eval m.core }))) _ b h' in
        with_model-looping d b (Simulation.update d.mdl) h''
        ∙ redraw-looping (with_model c (record m { core = eval m.core })) d e'
        ∙ interrupt-looping a c e

    cleaned-looping : (a b : App H) → cleaned t eval a ≡ some b → b.looping ≡ a.looping
    unfolding cleaned
    cleaned-looping a b h =
        ground (arith, h, redraw-looping (with_model a (set_dirty false a.mdl)) b)

    gone-looping :
        (a b : App H) (m : Model H) (go : Bool)
        → (if go then stepped t eval (with_model a m) else some (rested t eval (with_model a m)))
          ≡ some b
        → b.looping ≡ a.looping
    unfolding rested
    gone-looping a b m true h = stepped-looping (with_model a m) b h
    gone-looping a b m false h =
        ap (λ x. x.looping) (sym (some-injective (rested t eval (with_model a m)) b h))

    tick-looping : (a b : App H) → tick t eval a ≡ some b → b.looping ≡ a.looping
    unfolding tick pause
    tick-looping a b h =
        let r = can_step (with_irq 1 a.mdl) in
        let (c, e, h') =
          bind_inv
            (if r.1
              then stepped t eval (with_model a r.0)
              else some (rested t eval (with_model a r.0)))
            _ b h in
        let (d, e', h'') = bind_inv (cleaned t eval c) _ b h' in
        paused d b h'' ∙ cleaned-looping c d e' ∙ gone-looping a c r.0 r.1 e
      where
        paused : (d b : App H) → some (pause t eval d) ≡ some b → b.looping ≡ d.looping
        paused d b h = ground (arith, h)

    module _ (files : Bytes → Option (List Bytes)) (fuel : ℕ) where
      abbrev polled : App H → App H
      polled a = record a { con = record a.con { ch = negsuc 0; cmd = none_given } }

      -- A round in which `getch` has no key does nothing but what follows the `switch`.
      round_idle : (a : App H) → round t eval files fuel (negsuc 0) a ≡ tick t eval (polled a)
      unfolding round handle_input do_command
      round_idle a = refl

      goes_round :
          (keys : List ℤ) (a b : App H)
          → round t eval files fuel (negsuc 0) a ≡ some b
          → b.looping ≡ true
          → loop t eval files fuel (negsuc 0 ∷ keys) a ≡ loop t eval files fuel keys b
      unfolding loop
      goes_round keys a b e l = rw (e, l) refl

      -- The back-tick ends the loop, and leaves the model.
      idle_rounds :
          (n time k i : ℕ) (keys : List ℤ) (a : App H)
          → time + n < w64
          → a.looping ≡ true
          → Counted t eval n time i a.mdl
          → (b : App H) × (loop t eval files fuel (replicate k (negsuc 0) ++ pos 96 ∷ keys) a
              ≡ some b)
            × (b.looping ≡ false)
            × Counted t eval n time (i + k) b.mdl
      unfolding loop round handle_input
      idle_rounds n time zero i keys a w l c =
          (_, refl, refl, subst (λ j. Counted t eval n time j a.mdl) (omega arith) c)
      idle_rounds n time (suc k) i keys a w l c =
          let (b, e, (shown, is)) = tick_lem t eval (polled a) c.selected c.few in
          let next = subst (Counted t eval n time (suc i)) (sym is) (
            markers-Counted t eval n time (suc i) (advance eval a.mdl) shown
              (advance-Counted t eval n time i a.mdl w c)) in
          let still : b.looping ≡ true = tick-looping (polled a) b e ∙ l in
          let (r, e', stopped, q) = idle_rounds n time k (suc i) keys b w still next in
          (
            r,
            goes_round (replicate k (negsuc 0) ++ pos 96 ∷ keys) a b (round_idle a ∙ e) still ∙ e',
            stopped,
            subst (λ j. Counted t eval n time j r.mdl) (omega arith) q,
          )

      -- The loop from a step command for `n` time steps on, when `k` polls find no key and then the
      -- back-tick is typed, whatever keys follow it: the loop has a result and is ended, with `k` time
      -- steps made, or `n` if that is less. Stepping is on, no interrupt is requested, the interrupt
      -- counter is at most 11, a register of the bank is selected, and the time does not wrap at 2 ^ 64.
      pub loop_lem :
          (n k : ℕ) (keys : List ℤ) (a : App H)
          → a.looping ≡ true
          → a.mdl.stepping_enabled ≡ true
          → a.mdl.step_size ≡ pos n
          → a.mdl.step_cnt ≡ 0
          → a.mdl.irq_triggered ≡ false
          → a.mdl.irq_cnt ≤ 11
          → Selected a.mdl
          → a.mdl.time_step_ns + n < w64
          → (b : App H) × (loop t eval files fuel (replicate k (negsuc 0) ++ pos 96 ∷ keys) a
              ≡ some b)
            × (b.looping ≡ false)
            × (b.mdl.step_cnt ≡ (if ltb k n then k else n))
            × (b.mdl.time_step_ns ≡ a.mdl.time_step_ns + (if ltb k n then k else n))
      loop_lem n k keys a l s z c q f sel w =
          let (b, e, stopped, p) =
            idle_rounds n a.mdl.time_step_ns k 0 keys a w l
              (start-Counted t eval n a.mdl s z c q f sel) in
          let p' = subst (λ j. Counted t eval n a.mdl.time_step_ns j b.mdl) zero_add p in
          (b, e, stopped, p'.made, p'.passed)
        where
          zero_add : 0 + k ≡ k
          zero_add = omega arith
