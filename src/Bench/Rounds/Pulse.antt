-- ===== src/Bench/Rounds/Pulse.antt =====
-- The interrupt line over the rounds of `main`: `Command::TriggerIRQ`, the duration, and the part of
-- simulation/ranger_console/console_tb.cpp that counts a pulse out.
use risc_v_rv32i_multi_cycle.Prelude.{
  ℕ, suc, ◌+◌, ◌≤◌, ◌<◌, ◌≡◌, refl, sym, ap, ◌∙◌, subst, ◌⊎◌, inl, inr, true, false, ◌%◌, ◌==◌,
  some, ◌>>=◌, pos, arith, split_on, ltb_ℤ,
}
use risc_v_rv32i_multi_cycle.Ncurses.{Terminal}
use risc_v_rv32i_multi_cycle.Core.{Core, KeepsInputs}
use risc_v_rv32i_multi_cycle.Model.{Model, Markers, set_dirty, half_cycle}
use risc_v_rv32i_multi_cycle.Simulation
use risc_v_rv32i_multi_cycle.Bench.{App}
use risc_v_rv32i_multi_cycle.Bench.Rounds.{tick, with_irq}
use risc_v_rv32i_multi_cycle.Bench.Rounds.Refinement.{Selected, advance, pulse, tick_lem}
use risc_v_rv32i_multi_cycle.Bench.Rounds.Counting.{
  Asked, asked_model, advance-goes, ticks, ticks-keep,
}

-- A pulse of duration `d` has been counted to `n`, and there are steps left to make.
pub record Pulsing {H : Type 0} (d n : ℕ) (m : Model H) : Type 0 where
  pub enabled : m.irq_enabled ≡ true
  pub triggered : m.irq_triggered ≡ true
  pub counted : m.irq_cnt ≡ n
  pub duration : m.irq_duration ≡ pos d
  pub stepping : m.stepping_enabled ≡ true
  pub size : ℕ
  pub is_size : m.step_size ≡ pos size
  pub room : m.step_cnt + (d + 2) ≤ size + n
  pub selected : Selected m
  pub low : (n ≡ 0) ⊎ (m.core.irq_i ≡ 0)

module _ {H : Type 0} where
  -- The two things that a pulse does to the model.
  abbrev lowered : Model H → Model H
  lowered m = with_irq 0 (record m { irq_cnt = m.irq_cnt + 1 })

  abbrev raised : Model H → Model H
  raised m = record m { irq_triggered = false; irq_cnt = 0 }

  pulse-low :
      (d n : ℕ) (m : Model H)
      → m.irq_enabled ≡ true
      → m.irq_triggered ≡ true
      → m.irq_cnt ≡ n
      → m.irq_duration ≡ pos d
      → n ≤ d
      → pulse m ≡ lowered m
  pulse-low d n m e t c p h = rw (e, t, p, c, not_over) refl
    where
      not_over : ltb_ℤ (pos d) (pos n) ≡ false
      not_over = ground (arith, h)

  pulse-over :
      (d : ℕ) (m : Model H)
      → m.irq_enabled ≡ true
      → m.irq_triggered ≡ true
      → m.irq_cnt ≡ suc d
      → m.irq_duration ≡ pos d
      → pulse m ≡ raised m
  pulse-over d m e t c p = rw (e, t, p, c, over) refl
    where
      over : ltb_ℤ (pos d) (pos (suc d)) ≡ true
      over = ground arith

  module _ (eval : Core H → Core H) (keeps : KeepsInputs eval) where
    step-irq_i : (m : Model H) → (Simulation.step eval m).core.irq_i ≡ m.core.irq_i
    unfolding Simulation.step Simulation.begin Simulation.update
    step-irq_i m =
        keeps.irq _ ∙ split_on (m.time_step_ns % half_cycle == 0) (λ e. rw e refl) (λ e. rw e refl)

    step-Pulsing :
        (d n : ℕ) (m r : Model H)
        → n ≤ d
        → Asked (with_irq 1 m) r
        → Pulsing d n m
        → Pulsing d (suc n) (set_dirty false (Simulation.step eval (pulse r)))
    unfolding set_dirty Simulation.step Simulation.begin Simulation.update
    step-Pulsing d n m r h asked p =
        subst (λ x. Pulsing d (suc n) (set_dirty false (Simulation.step eval x)))
          (sym (
            ap pulse asked.is_asked
            ∙ pulse-low d n (asked_model m asked) p.enabled p.triggered p.counted p.duration h))
          (record {
            enabled = p.enabled;
            triggered = p.triggered;
            counted = rw p.counted (omega arith);
            duration = p.duration;
            stepping = p.stepping;
            size = p.size;
            is_size = p.is_size;
            room = omega (arith, p.room);
            selected = record {
              index = p.selected.index;
              is_index = p.selected.is_index;
              in_bank = p.selected.in_bank;
            };
            low = inr (step-irq_i (lowered (asked_model m asked)));
          })

    advance-Pulsing :
        (d n : ℕ) (m : Model H) → n ≤ d → Pulsing d n m → Pulsing d (suc n) (advance eval m)
    advance-Pulsing d n m h p =
        let (r, asked, e) =
          advance-goes eval m p.size p.stepping p.is_size (omega (arith, p.room)) in
        rw e (step-Pulsing d n m r h asked p)

    -- The line, and whether the pulse is over.
    Over : Model H → Type 0
    Over m = (m.core.irq_i ≡ 1) × (m.irq_triggered ≡ false)

    step-Over :
        (d : ℕ) (m r : Model H)
        → Asked (with_irq 1 m) r
        → Pulsing d (suc d) m
        → Over (set_dirty false (Simulation.step eval (pulse r)))
    unfolding set_dirty Simulation.step Simulation.update Simulation.begin Over
    step-Over d m r asked p =
        subst (λ x. Over (set_dirty false (Simulation.step eval x)))
          (sym (
            ap pulse asked.is_asked
            ∙ pulse-over d (asked_model m asked) p.enabled p.triggered p.counted p.duration))
          (step-irq_i (raised (asked_model m asked)), refl)

    advance-Over : (d : ℕ) (m : Model H) → Pulsing d (suc d) m → Over (advance eval m)
    advance-Over d m p =
        let (r, asked, e) =
          advance-goes eval m p.size p.stepping p.is_size (omega (arith, p.room)) in
        rw e (step-Over d m r asked p)

    module _ (t : Terminal) (d : ℕ) (a : App H) where
      -- The rounds in which the line is low.
      ticks-Pulsing :
          d ≤ 10
          → (k : ℕ) → k ≤ suc d
          → Pulsing d 0 a.mdl
          → (b : App H) × (ticks t eval k a ≡ some b) × Pulsing d k b.mdl
      ticks-Pulsing short k h p =
          let (b, e, q) = ticks-keep t eval few (suc d) fine rows keep k a h (p, omega arith) in
          (b, e, q.0)
        where
          few : ℕ → Model H → Type 0
          few i m = Pulsing d i m × (i ≤ suc d)

          fine : (i : ℕ) (m : Model H) → few i m → Selected m × (m.irq_cnt ≤ 11)
          fine i m (q, j) = (q.selected, rw q.counted (omega (arith, short, j)))

          marked :
              (i : ℕ) (m : Model H) (r : Markers)
              → Pulsing d i m
              → Pulsing d i (record m { markers = r })
          marked i m r q = record {
            enabled = q.enabled;
            triggered = q.triggered;
            counted = q.counted;
            duration = q.duration;
            stepping = q.stepping;
            size = q.size;
            is_size = q.is_size;
            room = q.room;
            selected = record {
              index = q.selected.index;
              is_index = q.selected.is_index;
              in_bank = q.selected.in_bank;
            };
            low = q.low;
          }

          rows : (i : ℕ) (m : Model H) (r : Markers) → few i m → few i (record m { markers = r })
          rows i m r (q, j) = (marked i m r q, j)

          keep : (i : ℕ) (m : Model H) → i < suc d → few i m → few (suc i) (advance eval m)
          keep i m l (q, j) = (advance-Pulsing d i m (omega (arith, l)) q, omega (arith, l))

      -- An interrupt of duration `d`, at most 10, has been requested, with interrupts and stepping
      -- on, `d + 2` time steps left to make, and a register of the bank selected. Where `eval` keeps
      -- its inputs, all the rounds below have a result: the line is low after each of the first
      -- `d + 1` rounds, and after one more it is high and the request is gone.
      pub pulse_lasts :
          d ≤ 10
          → Pulsing d 0 a.mdl
          → ((k : ℕ)
              → k < suc d
              → (b : App H) × (ticks t eval (suc k) a ≡ some b) × (b.mdl.core.irq_i ≡ 0))
            × ((b : App H) × (ticks t eval (suc (suc d)) a ≡ some b)
                × (b.mdl.core.irq_i ≡ 1)
                × (b.mdl.irq_triggered ≡ false))
      unfolding ticks Over
      pulse_lasts short p =
          let (b, e, q) = ticks-Pulsing short (suc d) (omega arith) p in
          let (c, e', (_, is)) =
            tick_lem t eval b q.selected (rw q.counted (omega (arith, short))) in
          let over = advance-Over d b.mdl q in
          (
            low_in,
            (
              c,
              ap (λ o. o >>= tick t eval) e ∙ e',
              ap (λ x. x.core.irq_i) is ∙ over.0,
              ap (λ x. x.irq_triggered) is ∙ over.1,
            ),
          )
        where
          low_in :
              (k : ℕ)
              → k < suc d
              → (b : App H) × (ticks t eval (suc k) a ≡ some b) × (b.mdl.core.irq_i ≡ 0)
          low_in k h =
              let (b, e, q) = ticks-Pulsing short (suc k) (omega arith) p in
              (b, e, elim q.low [ inl z ↦ absurd (omega arith) | inr l ↦ l ])
