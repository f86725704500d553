-- ===== src/Simulation/Steps.antt =====
-- The loops of simulation/ranger_console/simulation.cpp stop at the first step at which their
-- test holds, or when their bound is met.
use risc_v_rv32i_multi_cycle.Prelude.{
  ℕ, zero, suc, ◌+◌, ◌≤◌, ◌<◌, ◌≡◌, ◌⊎◌, inl, inr, refl, Bool, true, false, none, some, arith,
  Bool-cases, ap,
}
use risc_v_rv32i_multi_cycle.Core.{Core}
use risc_v_rv32i_multi_cycle.Model.{Model}
use risc_v_rv32i_multi_cycle.Simulation.{step, run_until, run_unbounded, run_for}

module _ {H : Type 0} (eval : Core H → Core H) where
  -- `k` steps of the simulation.
  unfoldable pub iterate : ℕ → Model H → Model H
  iterate zero m = m
  iterate (suc k) m = iterate k (step eval m)

  pub iterate-add : (j k : ℕ) (m : Model H) → iterate (j + k) m ≡ iterate k (iterate j m)
  unfolding iterate
  iterate-add zero k m = let e : 0 + k ≡ k = omega arith in rw e
  iterate-add (suc j) k m =
      let e : suc j + k ≡ suc (j + k) = omega arith in rw e (iterate-add j k (step eval m))

  -- `k` is the first of the steps up to a bound at which the test holds, or the bound itself.
  pub record IsFirst (stop : Model H → Bool) (m : Model H) (bound k : ℕ) : Type 0 where
    pub bounded : k ≤ bound
    pub before : (j : ℕ) → j < k → stop (iterate j m) ≡ false
    pub reached : (stop (iterate k m) ≡ true) ⊎ (k ≡ bound)

  IsFirst-suc :
      (stop : Model H → Bool) (m : Model H) (bound k : ℕ)
      → stop m ≡ false
      → IsFirst stop (step eval m) bound k
      → IsFirst stop m (suc bound) (suc k)
  unfolding iterate
  IsFirst-suc stop m bound k e f = record {
    bounded = omega (arith, f.bounded);
    before = earlier;
    reached = elim f.reached [ inl s ↦ inl s | inr q ↦ inr (ap suc q) ];
  }
    where
      earlier : (j : ℕ) → j < suc k → stop (iterate j m) ≡ false
      earlier zero h = e
      earlier (suc j) h = f.before j (omega arith)

  pub run_until-IsFirst :
      (bound : ℕ) (stop : Model H → Bool) (m : Model H)
      → (k : ℕ) × (run_until eval bound stop m ≡ iterate k m) × IsFirst stop m bound k
  unfolding run_until iterate
  run_until-IsFirst zero stop m = (
    0,
    refl,
    record { bounded = omega arith; before = λ j h. absurd (omega arith); reached = inr refl },
  )
  run_until-IsFirst (suc bound) stop m = elim (Bool-cases (stop m)) [
    | inl e ↦ (
      0,
      rw (e, run_until),
      record { bounded = omega arith; before = λ j h. absurd (omega arith); reached = inl e },
    )
    | inr e ↦
        let (k, runs, first) = run_until-IsFirst bound stop (step eval m) in
        (suc k, rw (e, run_until) runs, IsFirst-suc stop m bound k e first)
  ]

  -- `run_for` tests after a step: it goes to the first step, from one on, at which the test holds.
  pub run_for-IsFirst :
      (bound : ℕ) (stop : Model H → Bool) (m : Model H)
      → (k : ℕ) × (run_for eval (suc bound) stop m ≡ iterate (suc k) m)
        × IsFirst stop (step eval m) bound k
  unfolding run_for iterate
  run_for-IsFirst zero stop m = elim (Bool-cases (stop (step eval m))) [
    | inl e ↦ (
      0,
      rw (e, run_for),
      record { bounded = omega arith; before = λ j h. absurd (omega arith); reached = inl e },
    )
    | inr e ↦ (
      0,
      rw (e, run_for),
      record { bounded = omega arith; before = λ j h. absurd (omega arith); reached = inr refl },
    )
  ]
  run_for-IsFirst (suc bound) stop m = elim (Bool-cases (stop (step eval m))) [
    | inl e ↦ (
      0,
      rw (e, run_for),
      record { bounded = omega arith; before = λ j h. absurd (omega arith); reached = inl e },
    )
    | inr e ↦
        let (k, runs, first) = run_for-IsFirst bound stop (step eval m) in
        (suc k, rw (e, run_for) runs, IsFirst-suc stop (step eval m) bound k e first)
  ]

  -- The loop with no bound ends if a step comes at which its test holds, at the first such step.
  pub run_unbounded_ends :
      (k fuel : ℕ) (stop : Model H → Bool) (m : Model H)
      → stop (iterate k m) ≡ true
      → k < fuel
      → (j : ℕ) × (run_unbounded eval fuel stop m ≡ some (iterate j m)) × IsFirst stop m k j
  unfolding run_unbounded iterate
  run_unbounded_ends zero (suc fuel) stop m h lt = (
    0,
    rw (at_once h, run_unbounded),
    record { bounded = omega arith; before = λ j h. absurd (omega arith); reached = inl h },
  )
    where
      at_once : stop (iterate 0 m) ≡ true → stop m ≡ true
      at_once e = unfold iterate in e
  run_unbounded_ends (suc k) (suc fuel) stop m h lt = elim (Bool-cases (stop m)) [
    | inl e ↦ (
      0,
      rw (e, run_unbounded),
      record { bounded = omega arith; before = λ j h. absurd (omega arith); reached = inl e },
    )
    | inr e ↦
        let (j, runs, first) = run_unbounded_ends k fuel stop (step eval m) h (omega arith) in
        (suc j, rw (e, run_unbounded) runs, IsFirst-suc stop m k j e first)
  ]
  run_unbounded_ends zero zero stop m h lt = absurd (omega arith)
  run_unbounded_ends (suc k) zero stop m h lt = absurd (omega arith)

  -- It never ends if no such step comes.
  pub run_unbounded_hangs :
      (fuel : ℕ) (stop : Model H → Bool) (m : Model H)
      → ((k : ℕ) → stop (iterate k m) ≡ false)
      → run_unbounded eval fuel stop m ≡ none
  unfolding run_unbounded
  run_unbounded_hangs zero stop m h = refl
  run_unbounded_hangs (suc fuel) stop m h =
      rw (first (h 0), run_unbounded) (run_unbounded_hangs fuel stop (step eval m) later)
    where
      first : stop (iterate 0 m) ≡ false → stop m ≡ false
      first e = unfold iterate in e

      later : (k : ℕ) → stop (iterate k (step eval m)) ≡ false
      later k = unfold iterate in h (suc k)
