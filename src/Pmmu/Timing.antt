-- ===== src/Pmmu/Timing.antt =====
-- The loops of the tests of simulation/pmmu: what one leaves depends on the times since its base time,
-- and on the base time itself only by its phase in the clock.
use risc_v_rv32i_multi_cycle.Prelude.{
  ℕ, zero, suc, ◌+◌, ◌*◌, ◌%◌, ◌≡◌, refl, ap, ◌∙◌, ◌==◌, arith, List, [], ◌∷◌, if◌then◌else◌, Bool,
}
use risc_v_rv32i_multi_cycle.Pmmu.{Pmmu, eval}
use risc_v_rv32i_multi_cycle.TestBench.{Move, drive, cycles}
use risc_v_rv32i_multi_cycle.Pmmu.Bench.{Driven, rounds, step}
use risc_v_rv32i_multi_cycle.Core.{flip}

drive_shift :
    (ms : List (Move Driven)) (b c t u : ℕ)
    → t + c ≡ u + b
    → (d : Driven) → drive ms b t d ≡ drive ms c u d
drive_shift [] b c t u h d = refl
drive_shift (m ∷ ms) b c t u h d =
    ap (λ x. drive ms b t (if x then m.make d else d)) same
    ∙ drive_shift ms b c t u h (if u == c + m.at then m.make d else d)
  where
    same : (t == b + m.at) ≡ (u == c + m.at)
    same = ground arith

-- The clock turns at the end of a round.
turned : Bool → Pmmu → Pmmu
turned b t = if b then record t { clk_i = flip t.clk_i } else t

step_shift : (k t u : ℕ) → t ≡ u + 20 * k → (x : Pmmu) → step t x ≡ step u x
unfolding turned
step_shift k t u h x = ap (λ b. turned b (eval x)) phase
  where
    phase : (suc t % 10 == 0) ≡ (suc u % 10 == 0)
    phase = ground arith

-- A loop does the same a number of clock cycles later.
pub rounds_shift :
    (ms : List (Move Driven)) (k b c n t u : ℕ)
    → b ≡ c + 20 * k
    → t ≡ u + 20 * k
    → (d : Driven) → rounds ms b n t d ≡ rounds ms c n u d
unfolding cycles
rounds_shift ms k b c zero t u hb ht d = refl
rounds_shift ms k b c (suc n) t u hb ht d =
    ap next (drive_shift ms b c t u (omega arith) d)
    ∙ ap (λ x. rounds ms b n (suc t) (record (drive ms c u d) { unit = x }))
        (step_shift k t u ht (drive ms c u d).unit)
    ∙ rounds_shift ms k b c n (suc t) (suc u) hb (omega arith) _
  where
    next : Driven → Driven
    next d' = rounds ms b n (suc t) (record d' { unit = step t d'.unit })
