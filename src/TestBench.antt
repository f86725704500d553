-- ===== src/TestBench.antt =====
-- The loop that the test benches under simulation have in common: the inputs of the design are driven
-- at fixed times, and each round ends with `step`. What is stepped is a parameter.
use risc_v_rv32i_multi_cycle.Prelude.{ℕ, zero, suc, ◌+◌, List, [], ◌∷◌, ◌==◌, if◌then◌else◌}
pub mod Shown
pub mod Phases
pub mod Loops
pub mod Waits

-- What is done at a time after a base time: `if (timeStep == baseTime + at) { … }`.
pub record Move (U : Type 0) : Type 0 where
  pub at : ℕ
  pub make : U → U

module _ {U : Type 0} where
  abbrev pub drive : List (Move U) → ℕ → ℕ → U → U
  drive [] base time u = u
  drive (m ∷ ms) base time u = drive ms base time (if time == base + m.at then m.make u else u)

  -- So many rounds from a time on.
  unfoldable pub cycles : (ℕ → U → U) → List (Move U) → ℕ → ℕ → ℕ → U → U
  cycles step ms base zero time u = u
  cycles step ms base (suc n) time u =
      cycles step ms base n (suc time) (step time (drive ms base time u))

  -- What a port has after each of so many rounds.
  unfoldable pub outputs : (U → ℕ) → (ℕ → U → U) → List (Move U) → ℕ → ℕ → U → List ℕ
  outputs get step ms zero time u = []
  outputs get step ms (suc n) time u =
      let u' = step time (drive ms 0 time u) in get u' ∷ outputs get step ms n (suc time) u'
