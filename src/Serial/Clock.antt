-- ===== src/Serial/Clock.antt =====
-- The clock that the programs of Serial.Timed make.
use risc_v_rv32i_multi_cycle.Prelude.{
  ℕ, zero, suc, ◌+◌, ◌*◌, ◌/◌, ◌%◌, ◌≡◌, ap, ◌∙◌, [], Bool-cases, inl, inr, true, false, ◌-◌, ◌==◌,
  arith,
}
use risc_v_rv32i_multi_cycle.Core.{flip, flip_lem}
use risc_v_rv32i_multi_cycle.TestBench.{cycles}
use risc_v_rv32i_multi_cycle.Serial.{Link, link_step, link_steps, link_reset, link_start}
use risc_v_rv32i_multi_cycle.Serial.Timed.{manual_main, free_main, Uart, uart_step, uart_program}

-- A program over a step that turns the clock wherever the next time is a multiple of the half period.
module _ {U : Type 0} (step : ℕ → U → U) (clock : U → ℕ) (half : ℕ) where
  cycles-clock :
      ((t : ℕ) (u : U) → clock u ≡ t / half % 2 → clock (step t u) ≡ suc t / half % 2)
      → (n t : ℕ) (u : U) → clock u ≡ t / half % 2
      → clock (cycles step [] 0 n t u) ≡ (t + n) / half % 2
  unfolding cycles
  cycles-clock turns zero t u h = h ∙ ap (λ s. s / half % 2) same
    where
      same : t ≡ t + 0
      same = omega arith
  cycles-clock turns (suc n) t u h =
      cycles-clock turns n (suc t) (step t u) (turns t u h) ∙ ap (λ s. s / half % 2) later
    where
      later : suc t + n ≡ t + suc n
      later = omega arith

module _ {H : Type 0} (eval : Link H → Link H)
    (keeps : (u : Link H) → (eval u).pll_clk_i ≡ u.pll_clk_i) where
  link_turns :
      (t : ℕ) (u : Link H)
      → u.pll_clk_i ≡ t / 10 % 2
      → (link_step eval t u).pll_clk_i ≡ suc t / 10 % 2
  link_turns t u h = elim (Bool-cases (suc t % 10 == 0)) [
    | inl e ↦ rw e (ap flip (keeps u ∙ h) ∙ flip_lem (t / 10 % 2) (omega arith) ∙ turns e)
    | inr e ↦ rw e (keeps u ∙ h ∙ stays e)
  ]
    where
      turns : (suc t % 10 == 0) ≡ true → 1 - t / 10 % 2 ≡ suc t / 10 % 2
      turns e = ground arith

      stays : (suc t % 10 == 0) ≡ false → t / 10 % 2 ≡ suc t / 10 % 2
      stays e = ground arith

  steps_clock :
      (n t : ℕ) (u : Link H)
      → u.pll_clk_i ≡ t / 10 % 2
      → (link_steps eval n t u).pll_clk_i ≡ (t + n) / 10 % 2
  unfolding link_steps
  steps_clock = cycles-clock (link_step eval) (λ v. v.pll_clk_i) 10 link_turns

  first_clock : (u : Link H) → (link_step eval 0 (eval (record u { pll_clk_i = 0 }))).pll_clk_i ≡ 0
  first_clock u = link_turns 0 _ (keeps _)

  -- The programs that run for fixed times, over a design that leaves its clock alone: SPI_tb_manual.cpp,
  -- and those that reset the design and run it for a duration, for any duration. At the end the clock
  -- is what a clock with a period of twenty time steps, low from time 0 on, is at the time of the end.
  pub links_clock :
      (duration : ℕ) (u : Link H)
      → let m = manual_main eval u in
        let f = free_main eval duration u in
        (m.link.pll_clk_i ≡ m.time_step / 10 % 2) × (f.link.pll_clk_i ≡ f.time_step / 10 % 2)
  unfolding manual_main free_main link_start link_reset
  links_clock duration u = (
    steps_clock 1500 19626 _ (
        steps_clock 6300 13326 _ (
          steps_clock 50 13276 _ (
            steps_clock 6300 6976 _ (
              steps_clock 6400 576 _ (
                steps_clock 75 501 _
                  (steps_clock 500 1 _ (first_clock (record u { rst_i_n = 1; send_i_n = 1 })))))))),
    steps_clock duration 126 _
        (steps_clock 100 26 _ (steps_clock 25 1 _ (first_clock (record u { rst_i_n = 1 })))),
  )

module _ {H : Type 0} (eval : Uart H → Uart H)
    (keeps : (u : Uart H) → (eval u).clock ≡ u.clock) where
  uart_turns :
      (t : ℕ) (u : Uart H) → u.clock ≡ t / 20 % 2 → (uart_step eval t u).clock ≡ suc t / 20 % 2
  uart_turns t u h = elim (Bool-cases (suc t % (1 * 20) == 0)) [
    | inl e ↦ rw e (ap flip (keeps u ∙ h) ∙ flip_lem (t / 20 % 2) (omega arith) ∙ turns e)
    | inr e ↦ rw e (keeps u ∙ h ∙ stays e)
  ]
    where
      turns : (suc t % (1 * 20) == 0) ≡ true → 1 - t / 20 % 2 ≡ suc t / 20 % 2
      turns e = ground arith

      stays : (suc t % (1 * 20) == 0) ≡ false → t / 20 % 2 ≡ suc t / 20 % 2
      stays e = ground arith

  -- The program of uart, for any number of bits, over a design that leaves its clock alone: the clock
  -- has a period of forty time steps from the start to the end, so that a bit has 217 periods.
  uart_clock :
      (bits : ℕ) (u : Uart H)
      → let r = uart_program eval bits u in r.uart.clock ≡ r.time_step / 20 % 2
  unfolding uart_program
  uart_clock bits u =
      cycles-clock (uart_step eval) (λ v. v.clock) 20 uart_turns (8680 * bits) 26 _
        (cycles-clock (uart_step eval) (λ v. v.clock) 20 uart_turns 25 1 _
          (uart_turns 0 _ (keeps _)))
