-- ===== src/Ranger/Lines.antt =====
-- The reset and the interrupt line in the waveform of simulation/ranger_risc.
use risc_v_rv32i_multi_cycle.Prelude.{
  ℕ, zero, suc, ◌+◌, ◌-◌, ◌≡◌, refl, ap, ◌∙◌, Bool, true, ◌&&◌, List, [], ◌∷◌, leb, ltb,
  if◌then◌else◌, map, replicate, arith,
}
use risc_v_rv32i_multi_cycle.Core.{Core, KeepsInputs}
use risc_v_rv32i_multi_cycle.ResetSequence.{
  after_dump, reset_sequence, reset_rounds, ResettableLaws,
}
use risc_v_rv32i_multi_cycle.Ranger.{core_lines, irq_move, loop_rounds, ranger_loop, ranger_program}

-- The interrupt line at a time: low at 1202, 1203 and 1204.
abbrev irq_at : ℕ → ℕ
irq_at t = if leb 1202 t && ltb t 1205 then 0 else 1

abbrev pub irqs : ℕ → ℕ → List ℕ
irqs zero t = []
irqs (suc n) t = irq_at t ∷ irqs n (suc t)

module _ {H : Type 0} (eval : Core H → Core H) (keeps : KeepsInputs eval) where
  core_laws : ResettableLaws (core_lines eval)
  core_laws = record { eval_lem = keeps.reset; turn_lem = λ d. refl; set_lem = λ v d. refl }

  abbrev next : ℕ → Core H → Core H
  next t d = eval (irq_move eval true t (eval d))

  next_irq : (t : ℕ) (d : Core H) → d.irq_i ≡ irq_at t → (next (suc t) d).irq_i ≡ irq_at (suc t)
  next_irq t d h = keeps.irq _ ∙ moved
    where
      kept : (eval d).irq_i ≡ irq_at t
      kept = keeps.irq d ∙ h

      moved : (irq_move eval true (suc t) (eval d)).irq_i ≡ irq_at (suc t)
      moved = ground (arith, kept)

  next_reset : (t : ℕ) (d : Core H) → d.reset_i ≡ 1 → (next t d).reset_i ≡ 1
  next_reset t d h = keeps.reset _ ∙ moved ∙ keeps.reset d ∙ h
    where
      moved : (irq_move eval true t (eval d)).reset_i ≡ (eval d).reset_i
      moved = ground arith

  dump_irq : (t : ℕ) (d : Core H) → (after_dump (core_lines eval) t d).irq_i ≡ d.irq_i
  dump_irq t d = ground arith

  dump_reset : (t : ℕ) (d : Core H) → (after_dump (core_lines eval) t d).reset_i ≡ d.reset_i
  dump_reset t d = ground arith

  rounds_lines :
      (n t : ℕ) (d : Core H)
      → d.irq_i ≡ irq_at t
      → d.reset_i ≡ 1
      → let r = loop_rounds eval true n (suc t) d in
        (map (λ c. c.irq_i) r.dumps ≡ irqs n (suc t))
        × (map (λ c. c.reset_i) r.dumps ≡ replicate n 1)
        × (r.time_step ≡ suc t + n)
  unfolding loop_rounds
  rounds_lines zero t d h e = (refl, refl, omega arith)
  rounds_lines (suc n) t d h e =
      let (p, q, w) =
        rounds_lines n (suc t) (after_dump (core_lines eval) (suc t) (next (suc t) d))
          (dump_irq (suc t) (next (suc t) d) ∙ next_irq t d h)
          (dump_reset (suc t) (next (suc t) d) ∙ next_reset (suc t) d e) in
      (cc (next_irq t d h, p), cc (next_reset (suc t) d e, q), omega (arith, w))

  -- The programs with interrupts enabled, for any duration, over a processor that leaves its inputs alone:
  -- the waveform has one time step more than the duration, in which the reset is high throughout, since
  -- a reset sequence without a duration does not lower it, and the interrupt line is low at the times
  -- 1202 to 1204 and else high.
  pub ranger_program_lem :
      (dumps : Bool) (duration : ℕ) (d : Core H)
      → let r = ranger_program eval dumps duration true d in
        (map (λ c. c.irq_i) r.dumps ≡ irqs (duration + 1) 1)
        × (map (λ c. c.reset_i) r.dumps ≡ replicate (duration + 1) 1)
        × (r.time_step ≡ duration + 2)
  unfolding ranger_program ranger_loop reset_sequence reset_rounds
  ranger_program_lem dumps duration d =
      let (p, q, w) = rounds_lines (1 + duration + 1 - 1) 0 d1 (keeps.irq _ ∙ keeps.irq _) refl in
      (p ∙ ap (λ n. irqs n 1) rounds, q ∙ ap (λ n. replicate n 1) rounds, w ∙ end)
    where
      d1 : Core H
      d1 = record (eval (eval (record d { irq_i = 1 }))) { reset_i = 1 }

      rounds : 1 + duration + 1 - 1 ≡ duration + 1
      rounds = omega arith

      end : 1 + (1 + duration + 1 - 1) ≡ duration + 2
      end = omega arith
