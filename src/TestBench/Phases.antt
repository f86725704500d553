-- ===== src/TestBench/Phases.antt =====
-- Loops of test benches taken apart, and moved in time.
use risc_v_rv32i_multi_cycle.Prelude.{ℕ, zero, suc, ◌+◌, ◌≡◌, refl, ap, ◌∙◌, List, [], arith}
use risc_v_rv32i_multi_cycle.TestBench.{Move, drive, cycles}

module _ {U : Type 0} (step : ℕ → U → U) (base : ℕ) where
  -- So many rounds and so many more.
  pub cycles-add :
      (ms : List (Move U)) (m n t : ℕ) (u : U)
      → cycles step ms base (m + n) t u ≡ cycles step ms base n (t + m) (cycles step ms base m t u)
  unfolding cycles
  cycles-add ms zero n t u =
      ap (λ j. cycles step ms base j t u) none_more ∙ ap (λ s. cycles step ms base n s u) same
    where
      none_more : 0 + n ≡ n
      none_more = omega arith

      same : t ≡ t + 0
      same = omega arith
  cycles-add ms (suc m) n t u =
      ap (λ j. cycles step ms base j t u) more
      ∙ cycles-add ms m n (suc t) (step t (drive ms base t u))
      ∙ ap
          (λ s.
            cycles step ms base n s (cycles step ms base m (suc t) (step t (drive ms base t u))))
          later
    where
      more : suc m + n ≡ suc (m + n)
      more = omega arith

      later : suc t + m ≡ t + suc m
      later = omega arith

  -- Without moves, a step that repeats itself after so many times makes the loop repeat itself.
  pub cycles_later :
      (p : ℕ)
      → ((t : ℕ) (u : U) → step (t + p) u ≡ step t u)
      → (n t : ℕ) (u : U) → cycles step [] base n (t + p) u ≡ cycles step [] base n t u
  unfolding cycles
  cycles_later p h zero t u = refl
  cycles_later p h (suc n) t u =
      ap (cycles step [] base n (suc (t + p))) (h t u)
      ∙ ap (λ s. cycles step [] base n s (step t u)) next
      ∙ cycles_later p h n (suc t) (step t u)
    where
      next : suc (t + p) ≡ suc t + p
      next = omega arith
