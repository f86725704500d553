-- ===== src/TestBench/Waits.antt =====
-- What the loops that wait for an edge or a level of a port of the design test, and a round of them.
use risc_v_rv32i_multi_cycle.Prelude.{ℕ, ◌+◌, Bool, ◌&&◌, ◌==◌, if◌then◌else◌}

-- The time, what the port was a round before, and the design.
pub record Wait (U : Type 0) : Type 0 where
  pub time_step : ℕ
  pub before : ℕ
  pub unit : U

module _ {U : Type 0} (step : ℕ → U → U) (port : U → ℕ) where
  -- A round: `p_ready = top->ready;`, where the loop has that line, and
  -- `timeStep = step(timeStep, tb, top);`.
  abbrev pub wait_round : Bool → Wait U → Wait U
  wait_round notes s = record {
    time_step = s.time_step + 1;
    before = if notes then port s.unit else s.before;
    unit = step s.time_step s.unit;
  }

  -- The port has turned from one value to another.
  abbrev pub turned : ℕ → ℕ → Wait U → Bool
  turned a b s = s.before == a && port s.unit == b

  abbrev pub has_fallen : Wait U → Bool
  has_fallen = turned 1 0

  abbrev pub has_risen : Wait U → Bool
  has_risen = turned 0 1

  abbrev pub is_high : Wait U → Bool
  is_high s = port s.unit == 1
