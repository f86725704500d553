-- ===== src/Bench/Rounds/Counting.antt =====
-- Rounds of `main` in which no command is given, and how many time steps they make after a step
-- command (simulation/ranger_console/console_tb.cpp).
use risc_v_rv32i_multi_cycle.Prelude.{
  ℕ, zero, suc, ◌+◌, ◌≤◌, ◌<◌, ◌≡◌, refl, ap, ◌∙◌, inl, inr, Bool, true, false, Option, some, ◌>>=◌,
  pos, ltb, ltb_ℤ, arith, split_on, if◌then◌else◌, subst, sym, w64,
}
use risc_v_rv32i_multi_cycle.Ncurses.{Terminal}
use risc_v_rv32i_multi_cycle.Core.{Core}
use risc_v_rv32i_multi_cycle.Model.{Model, Markers, at_break, can_step, set_dirty}
use risc_v_rv32i_multi_cycle.Model.Stepping.{can_step_break, can_step_elsewhere, can_step_stepping}
use risc_v_rv32i_multi_cycle.Simulation
use risc_v_rv32i_multi_cycle.Bench.{App}
use risc_v_rv32i_multi_cycle.Bench.Rounds.{tick, with_irq}
use risc_v_rv32i_multi_cycle.Bench.Rounds.Refinement.{
  Selected, advance, pulse, go_or_rest, tick_lem,
}

-- What `canStep` may have changed.
pub record Asked {H : Type 0} (m m' : Model H) : Type 0 where
  pub running : Bool
  pub breaking : Bool
  pub stale : Bool
  pub is_asked : m' ≡ record m { free_run = running; break_enabled = breaking; dirty = stale }

module _ {H : Type 0} where
  pub can_step-Asked : (m : Model H) → Asked m (can_step m).0
  can_step-Asked m =
      split_on m.free_run
        (λ f.
          split_on m.break_enabled
            (λ b.
              split_on (at_break m)
                (λ a. record {
                  running = false;
                  breaking = false;
                  stale = true;
                  is_asked = can_step_break m f b a;
                })
                (λ a. record {
                  running = m.free_run;
                  breaking = m.break_enabled;
                  stale = m.dirty;
                  is_asked = can_step_elsewhere m (inr (inr a));
                }))
            (λ b. record {
              running = m.free_run;
              breaking = m.break_enabled;
              stale = m.dirty;
              is_asked = can_step_elsewhere m (inr (inl b));
            }))
        (λ f. record {
          running = m.free_run;
          breaking = m.break_enabled;
          stale = m.dirty;
          is_asked = can_step_elsewhere m (inl f);
        })

  -- The model after `canStep`, in a round.
  abbrev pub asked_model : (m : Model H) {r : Model H} → Asked (with_irq 1 m) r → Model H
  asked_model m q = record (with_irq 1 m) {
    free_run = q.running;
    break_enabled = q.breaking;
    dirty = q.stale;
  }

  below :
      (m : Model H) (size : ℕ)
      → m.step_size ≡ pos size
      → m.step_cnt < size
      → ltb_ℤ (pos m.step_cnt) m.step_size ≡ true
  below m size z h = rw z (ground arith)

  not_below :
      (m : Model H) (size : ℕ)
      → m.step_size ≡ pos size
      → size ≤ m.step_cnt
      → ltb_ℤ (pos m.step_cnt) m.step_size ≡ false
  not_below m size z h = rw z (ground arith)

  pulse-quiet : (m : Model H) → m.irq_triggered ≡ false → pulse m ≡ m
  pulse-quiet m h = split_on m.irq_enabled (λ e. rw (e, h) refl) (λ e. rw e refl)

  module _ (eval : Core H → Core H) where
    -- A round that steps.
    pub advance-goes :
        (m : Model H) (size : ℕ)
        → m.stepping_enabled ≡ true
        → m.step_size ≡ pos size
        → m.step_cnt < size
        → (r : Model H) × Asked (with_irq 1 m) r
          × (advance eval m ≡ set_dirty false (Simulation.step eval (pulse r)))
    unfolding advance
    advance-goes m size s z h =
        let r = can_step (with_irq 1 m) in
        (
          r.0,
          can_step-Asked (with_irq 1 m),
          ap {A = Bool} (λ b. set_dirty false (go_or_rest eval (r.0, b)))
              (can_step_stepping (with_irq 1 m) s ∙ below m size z h),
        )

    -- A round that rests.
    pub advance-rests :
        (m : Model H) (size : ℕ)
        → m.stepping_enabled ≡ true
        → m.step_size ≡ pos size
        → size ≤ m.step_cnt
        → (r : Model H) × Asked (with_irq 1 m) r
          × (advance eval m ≡ set_dirty false (Simulation.end r))
    unfolding advance
    advance-rests m size s z h =
        let r = can_step (with_irq 1 m) in
        (
          r.0,
          can_step-Asked (with_irq 1 m),
          ap {A = Bool} (λ b. set_dirty false (go_or_rest eval (r.0, b)))
              (can_step_stepping (with_irq 1 m) s ∙ not_below m size z h),
        )

module _ {H : Type 0} (t : Terminal) (eval : Core H → Core H) where
  -- Rounds with no command.
  unfoldable pub ticks : ℕ → App H → Option (App H)
  unfolding tick
  ticks zero a = some a
  ticks (suc n) a = do b ← ticks n a; tick t eval b

  -- What holds of the model at the start and is kept by every round holds after `k` rounds, all of
  -- which have a result.
  pub ticks-keep :
      (P : ℕ → Model H → Type 0) (bound : ℕ)
      → ((k : ℕ) (m : Model H) → P k m → Selected m × (m.irq_cnt ≤ 11))
      → ((k : ℕ) (m : Model H) (rows : Markers) → P k m → P k (record m { markers = rows }))
      → ((k : ℕ) (m : Model H) → k < bound → P k m → P (suc k) (advance eval m))
      → (k : ℕ) (a : App H) → k ≤ bound
      → P 0 a.mdl
      → (b : App H) × (ticks k a ≡ some b) × P k b.mdl
  unfolding ticks
  ticks-keep P bound fine rows keep zero a h p = (a, refl, p)
  ticks-keep P bound fine rows keep (suc k) a h p =
      let (b, e, q) = ticks-keep P bound fine rows keep k a (omega arith) p in
      let (sel, few) = fine k b.mdl q in
      let (c, e', (shown, is)) = tick_lem t eval b sel few in
      (
        c,
        rw e e',
        subst (P (suc k)) (sym is)
            (rows (suc k) (advance eval b.mdl) shown (keep k b.mdl (omega arith) q)),
      )

  -- `k` rounds after a step command for `n` time steps, given when the clock stood at `time`.
  pub record Counted (n time k : ℕ) (m : Model H) : Type 0 where
    pub stepping : m.stepping_enabled ≡ true
    pub is_size : m.step_size ≡ pos n
    pub made : m.step_cnt ≡ (if ltb k n then k else n)
    pub passed : m.time_step_ns ≡ time + (if ltb k n then k else n)
    pub quiet : m.irq_triggered ≡ false
    pub few : m.irq_cnt ≤ 11
    pub selected : Selected m

  step-Counted :
      (n time k : ℕ) (m r : Model H)
      → time + n < w64
      → k < n
      → Asked (with_irq 1 m) r
      → Counted n time k m
      → Counted n time (suc k) (set_dirty false (Simulation.step eval (pulse r)))
  unfolding set_dirty Simulation.step Simulation.begin Simulation.update
  step-Counted n time k m r w h asked c =
      subst (λ x. Counted n time (suc k) (set_dirty false (Simulation.step eval x)))
        (sym (ap pulse asked.is_asked ∙ pulse-quiet (asked_model m asked) c.quiet))
        (record {
          stepping = c.stepping;
          is_size = c.is_size;
          made = rw c.made (ground (arith, h));
          passed = rw c.passed (ground (arith, h, w));
          quiet = c.quiet;
          few = c.few;
          selected = record {
            index = c.selected.index;
            is_index = c.selected.is_index;
            in_bank = c.selected.in_bank;
          };
        })

  rest-Counted :
      (n time k : ℕ) (m r : Model H)
      → n ≤ k
      → Asked (with_irq 1 m) r
      → Counted n time k m
      → Counted n time (suc k) (set_dirty false (Simulation.end r))
  unfolding set_dirty Simulation.end
  rest-Counted n time k m r h asked c =
      subst (λ x. Counted n time (suc k) (set_dirty false (Simulation.end x))) (sym asked.is_asked)
        (record {
          stepping = c.stepping;
          is_size = c.is_size;
          made = rw c.made (ground (arith, h));
          passed = rw c.passed (ground (arith, h));
          quiet = c.quiet;
          few = c.few;
          selected = record {
            index = c.selected.index;
            is_index = c.selected.is_index;
            in_bank = c.selected.in_bank;
          };
        })

  pub advance-Counted :
      (n time k : ℕ) (m : Model H)
      → time + n < w64
      → Counted n time k m
      → Counted n time (suc k) (advance eval m)
  advance-Counted n time k m w c =
      split_on (ltb k n)
        (λ h.
          let (r, asked, e) =
            advance-goes eval m n c.stepping c.is_size (ground (arith, c.made, h)) in
          rw e (step-Counted n time k m r w (ground (arith, h)) asked c))
        (λ h.
          let (r, asked, e) =
            advance-rests eval m n c.stepping c.is_size (ground (arith, c.made, h)) in
          rw e (rest-Counted n time k m r (ground (arith, h)) asked c))

  pub start-Counted :
      (n : ℕ) (m : Model H)
      → m.stepping_enabled ≡ true
      → m.step_size ≡ pos n
      → m.step_cnt ≡ 0
      → m.irq_triggered ≡ false
      → m.irq_cnt ≤ 11
      → Selected m
      → Counted n m.time_step_ns 0 m
  start-Counted n m s z c q f sel = record {
    stepping = s;
    is_size = z;
    made = ground (arith, c);
    passed = ground arith;
    quiet = q;
    few = f;
    selected = sel;
  }

  -- The rows of the markers do not matter.
  pub markers-Counted :
      (n time k : ℕ) (m : Model H) (r : Markers)
      → Counted n time k m
      → Counted n time k (record m { markers = r })
  markers-Counted n time k m r c = record {
    stepping = c.stepping;
    is_size = c.is_size;
    made = c.made;
    passed = c.passed;
    quiet = c.quiet;
    few = c.few;
    selected = record {
      index = c.selected.index;
      is_index = c.selected.is_index;
      in_bank = c.selected.in_bank;
    };
  }

  -- After a step command for `n` time steps, with stepping on, no interrupt requested, an interrupt counter
  -- of at most 11 (the length of the literal that it is added to), a register of the bank selected, and a
  -- time that does not wrap at 2 ^ 64 within `n` steps: any number `k` of rounds with no command has a
  -- result and has made `k` time steps, or `n` once `k` exceeds it.
  pub ticks_count :
      (n k : ℕ) (a : App H)
      → a.mdl.stepping_enabled ≡ true
      → a.mdl.step_size ≡ pos n
      → a.mdl.step_cnt ≡ 0
      → a.mdl.irq_triggered ≡ false
      → a.mdl.irq_cnt ≤ 11
      → Selected a.mdl
      → a.mdl.time_step_ns + n < w64
      → (b : App H) × (ticks k a ≡ some b)
        × (b.mdl.step_cnt ≡ (if ltb k n then k else n))
        × (b.mdl.time_step_ns ≡ a.mdl.time_step_ns + (if ltb k n then k else n))
  ticks_count n k a s z c q f sel w =
      let (b, e, p) =
        ticks-keep (λ i m. Counted n a.mdl.time_step_ns i m) k (λ i m p. (p.selected, p.few))
          (markers-Counted n a.mdl.time_step_ns)
          (λ i m _ p. advance-Counted n a.mdl.time_step_ns i m w p) k a (omega arith)
          (start-Counted n a.mdl s z c q f sel) in
      (b, e, p.made, p.passed)
