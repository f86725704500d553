-- ===== src/Bench/Rounds/Refinement.antt =====
-- What a round of `main` does to the model, apart from all that is drawn.
use risc_v_rv32i_multi_cycle.Prelude.{
  ℕ, ◌+◌, ◌≤◌, ◌<◌, ◌≡◌, refl, sym, ap, ◌∙◌, Bool, true, false, ◌&&◌, Option, some, if◌then◌else◌,
  ◌>>=◌, pos, ltb_ℤ, arith, lt→ltb, split_on, le→leb,
}
use risc_v_rv32i_multi_cycle.Ncurses.{Terminal}
use risc_v_rv32i_multi_cycle.Core.{Core, read_word}
use risc_v_rv32i_multi_cycle.Model.{Model, Markers, can_step, set_dirty, is_dirty}
use risc_v_rv32i_multi_cycle.Simulation
use risc_v_rv32i_multi_cycle.Console.Show.{show}
use risc_v_rv32i_multi_cycle.Bench.{App, redraw}
use risc_v_rv32i_multi_cycle.Bench.Commands.{with_model}
use risc_v_rv32i_multi_cycle.Bench.Rounds.{
  interrupt, stepped, rested, cleaned, pause, tick, with_irq,
}

-- The register that the console shows exists.
pub record Selected {H : Type 0} (m : Model H) : Type 0 where
  pub index : ℕ
  pub is_index : m.selected_reg ≡ pos index
  pub in_bank : index < 32

module _ {H : Type 0} where
  -- A requested interrupt pulls the line low, and is over when it has been counted out.
  abbrev pub pulse : Model H → Model H
  pulse m =
      if m.irq_enabled && m.irq_triggered
      then (if ltb_ℤ m.irq_duration (pos m.irq_cnt)
          then record m { irq_triggered = false; irq_cnt = 0 }
          else with_irq 0 (record m { irq_cnt = m.irq_cnt + 1 }))
      else m

  abbrev pub go_or_rest : (Core H → Core H) → Model H × Bool → Model H
  go_or_rest eval (m, true) = Simulation.step eval (pulse m)
  go_or_rest eval (m, false) = Simulation.end m

  -- The specification: a round of the simulation with no console.
  unfoldable pub advance : (Core H → Core H) → Model H → Model H
  unfolding can_step set_dirty Simulation.end
  advance eval m = set_dirty false (go_or_rest eval (can_step (with_irq 1 m)))

  -- `a` holds the model `m`, up to the rows of the markers.
  abbrev pub Shows : Model H → App H → Type 0
  Shows m a = (k : Markers) × (a.mdl ≡ record m { markers = k })

  shown_twice : (m : Model H) (a b : App H) → Shows m a → Shows a.mdl b → Shows m b
  shown_twice m a b (_, e) (k, e') = (k, e' ∙ ap {A = Model H} (λ x. record x { markers = k }) e)

  shown-Selected : (m : Model H) (a : App H) → Shows m a → Selected m → Selected a.mdl
  shown-Selected m a (_, e) sel = record {
    index = sel.index;
    is_index = ap (λ x. x.selected_reg) e ∙ sel.is_index;
    in_bank = sel.in_bank;
  }

  interrupt_lem :
      (a : App H)
      → a.mdl.irq_cnt ≤ 11
      → (b : App H) × (interrupt a ≡ some b) × (b.mdl ≡ pulse a.mdl)
  unfolding interrupt
  interrupt_lem a h =
      split_on (a.mdl.irq_enabled && a.mdl.irq_triggered)
        (λ e. rw e (
          split_on (ltb_ℤ a.mdl.irq_duration (pos a.mdl.irq_cnt)) (λ e'. rw e' (_, refl, refl))
            (λ e'. rw (e', le→leb a.mdl.irq_cnt 11 h) (_, refl, refl))))
        (λ e. rw e (_, refl, refl))

  can_step-selected_reg : (m : Model H) → (can_step m).0.selected_reg ≡ m.selected_reg
  unfolding can_step
  can_step-selected_reg m = ground arith

  can_step-irq_cnt : (m : Model H) → (can_step m).0.irq_cnt ≡ m.irq_cnt
  unfolding can_step
  can_step-irq_cnt m = ground arith

  pulse-selected_reg : (m : Model H) → (pulse m).selected_reg ≡ m.selected_reg
  pulse-selected_reg m = ground arith

  can_step-Selected : (m : Model H) → Selected m → Selected (can_step (with_irq 1 m)).0
  can_step-Selected m sel = record {
    index = sel.index;
    is_index = can_step-selected_reg (with_irq 1 m) ∙ sel.is_index;
    in_bank = sel.in_bank;
  }

  module _ (t : Terminal) (eval : Core H → Core H) where
    redraw_self : (a : App H) → Selected a.mdl → (b : App H) × (redraw t a ≡ some b) × Shows a.mdl b
    unfolding redraw show read_word
    redraw_self a sel = rw (sel.is_index, lt→ltb sel.index 32 sel.in_bank) (_, refl, (_, refl))

    pub redraw_lem :
        (m : Model H) (a : App H)
        → Selected m
        → Shows m a
        → (b : App H) × (redraw t a ≡ some b) × Shows m b
    redraw_lem m a sel h =
        let (b, e, h') = redraw_self a (shown-Selected m a h sel) in (b, e, shown_twice m a b h h')

    abbrev evaluated : Model H → Model H
    evaluated m = let m' = Simulation.begin m in record m' { core = eval m'.core }

    evaluated-Selected : (m : Model H) → Selected m → Selected (evaluated (pulse m))
    unfolding Simulation.begin
    evaluated-Selected m sel = record {
      index = sel.index;
      is_index = pulse-selected_reg m ∙ sel.is_index;
      in_bank = sel.in_bank;
    }

    stepped_lem :
        (a : App H)
        → Selected a.mdl
        → a.mdl.irq_cnt ≤ 11
        → (b : App H) × (stepped t eval a ≡ some b) × Shows (Simulation.step eval (pulse a.mdl)) b
    unfolding stepped Simulation.step Simulation.update
    stepped_lem a sel h =
        let (b, e, p) = interrupt_lem a h in
        let c = with_model b (evaluated b.mdl) in
        let (d, e', (k, p')) =
          redraw_lem (evaluated (pulse a.mdl)) c (evaluated-Selected a.mdl sel)
            (_, ap evaluated p) in
        rw (e, e') (_, refl, (k, ap Simulation.update p'))

    cleaned_lem :
        (m : Model H) (a : App H)
        → Selected m
        → Shows m a
        → (b : App H) × (cleaned t eval a ≡ some b) × Shows (set_dirty false m) b
    unfolding cleaned set_dirty is_dirty
    cleaned_lem m a sel (k, e) =
        split_on a.mdl.dirty
          (λ d. rw d (
            redraw_lem (record m { dirty = false }) (with_model a (record a.mdl { dirty = false }))
              (record { index = sel.index; is_index = sel.is_index; in_bank = sel.in_bank })
              (k, ap {A = Model H} (λ x. record x { dirty = false }) e)))
          (λ d. (
            a,
            rw d refl,
            (k, e ∙ ap (λ b. record m { markers = k; dirty = b }) (sym (ap (λ x. x.dirty) e) ∙ d)),
          ))

    abbrev gone : App H → Model H × Bool → Option (App H)
    gone a (m, go) =
        if go then stepped t eval (with_model a m) else some (rested t eval (with_model a m))

    gone_lem :
        (a : App H) (r : Model H × Bool)
        → Selected r.0
        → r.0.irq_cnt ≤ 11
        → (b : App H) × (gone a r ≡ some b) × Shows (go_or_rest eval r) b
    unfolding rested
    gone_lem a (m, true) sel h = stepped_lem (with_model a m) sel h
    gone_lem a (m, false) sel h = (_, refl, (_, refl))

    gone-Selected : (r : Model H × Bool) → Selected r.0 → Selected (go_or_rest eval r)
    unfolding Simulation.step Simulation.begin Simulation.update Simulation.end
    gone-Selected (m, true) sel = record {
      index = sel.index;
      is_index = pulse-selected_reg m ∙ sel.is_index;
      in_bank = sel.in_bank;
    }
    gone-Selected (m, false) sel = record {
      index = sel.index;
      is_index = sel.is_index;
      in_bank = sel.in_bank;
    }

    pause-mdl : (a : App H) → (pause t eval a).mdl ≡ a.mdl
    unfolding pause
    pause-mdl a = split_on a.delay_enabled (λ e. rw e refl) (λ e. rw e refl)

    -- With a register of the bank selected and the interrupt counter at 11 at most, the part of a
    -- round behind the `switch` has a defined result, and its model is that of the round with no
    -- console, up to the rows of the two markers: nothing that is drawn acts on the simulation.
    pub tick_lem :
        (a : App H)
        → Selected a.mdl
        → a.mdl.irq_cnt ≤ 11
        → (b : App H) × (tick t eval a ≡ some b) × Shows (advance eval a.mdl) b
    unfolding tick advance
    tick_lem a sel h =
        let r = can_step (with_irq 1 a.mdl) in
        let chosen = can_step-Selected a.mdl sel in
        let (b, e, p) = gone_lem a r chosen (rw (can_step-irq_cnt (with_irq 1 a.mdl)) h) in
        let (c, e', p') = cleaned_lem (go_or_rest eval r) b (gone-Selected r chosen) p in
        (
          pause t eval c,
          ap (λ o. o >>= λ x. cleaned t eval x >>= λ y. some (pause t eval y)) e
              ∙ ap (λ o. o >>= λ y. some (pause t eval y)) e',
          (p'.0, pause-mdl c ∙ p'.1),
        )
