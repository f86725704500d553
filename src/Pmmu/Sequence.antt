-- ===== src/Pmmu/Sequence.antt =====
-- The load tests of simulation/pmmu one after the other, as `main` of Pmmu_tb.cpp runs them: the first
-- one that does not find its value ends the program.
use risc_v_rv32i_multi_cycle.Prelude.{
  ℕ, ◌+◌, ◌*◌, ◌<◌, ◌≡◌, refl, sym, ap, ◌∙◌, subst, Bool, true, false, not, ◌&&◌, ◌==◌,
  if◌then◌else◌, arith, List, [], ◌∷◌, map, All, split_on,
}
use Prim.Native.String.{String}
use risc_v_rv32i_multi_cycle.Core.{Unpacked}
use risc_v_rv32i_multi_cycle.Pmmu.Bytes.{AreWords, load_value}
use risc_v_rv32i_multi_cycle.Pmmu.Bench.{Run, load_test}
use risc_v_rv32i_multi_cycle.Pmmu.Program.{Outcome, running, exited, run_tests, shutdown}
use risc_v_rv32i_multi_cycle.Pmmu.Protocol.{Ready, base_time, load_test_lem}

-- A load test by its numbers.
pub record Load : Type 0 where
  pub code : ℕ
  pub word : ℕ
  pub selector : ℕ
  pub expected : ℕ
  pub message : String

abbrev pub as_test : Load → ℕ → ℕ → Run → Run
as_test l = load_test l.code l.word l.selector l.expected l.message

pub record InRange (l : Load) : Type 0 where
  pub code : l.code < 8
  pub word : l.word < 1024
  pub selector : l.selector < 4

-- The memory has every value that is expected.
abbrev pub all_found : List Load → Unpacked → Bool
all_found [] m = true
all_found (l ∷ ls) m =
    (load_value l.code m (l.word * 4 + l.selector) == l.expected) && all_found ls m

-- The program goes on, or ends with EXIT_FAILURE.
abbrev pub outcome : Bool → Run → Outcome
outcome true s = running s
outcome false s = exited 1 s

exited_stays :
    (ts : List (ℕ → ℕ → Run → Run)) (base d c : ℕ) (s : Run)
    → run_tests ts base d (exited c s) ≡ exited c s
exited_stays [] base d c s = refl
exited_stays (t ∷ ts) base d c s = exited_stays ts (base + d) d c s

-- Load tests one after the other, the first of them at one of the base times with the memory's write
-- line high: the program goes on if the memory has the value that each of them expects, and otherwise
-- ends with EXIT_FAILURE. The memory is as it was.
pub run_tests-loads :
    (ls : List Load) (k : ℕ) (s : Run)
    → All InRange ls
    → AreWords s.top.mem
    → s.top.mwr_i ≡ 1
    → Ready k s
    → (s' : Run) × (run_tests (map as_test ls) (base_time k) 20 (running s)
        ≡ outcome (all_found ls s.top.mem) s')
      × (s'.top.mem ≡ s.top.mem)
run_tests-loads [] k s hl hm high ready = (s, refl, refl)
run_tests-loads (l ∷ ls) k s (h, hl) hm high ready =
    split_on (value == l.expected)
      (λ e.
        let (s', is, mem) =
          run_tests-loads ls (k + 1) s1 hl (subst AreWords (sym same) hm) high' ready' in
        (
          s',
          goes (failed ∙ ap not e)
              ∙ ap (λ b. run_tests (map as_test ls) b 20 (running s1)) next_base
              ∙ is
              ∙ ap (λ m. outcome (all_found ls m) s') same
              ∙ sym (ap (λ b. outcome (b && all_found ls s.top.mem) s') e),
          mem ∙ same,
        ))
      (λ e. (
        shutdown s1,
        goes (failed ∙ ap not e)
            ∙ exited_stays (map as_test ls) _ 20 1 (shutdown s1)
            ∙ sym (ap (λ b. outcome (b && all_found ls s.top.mem) (shutdown s1)) e),
        same,
      ))
  where
    value : ℕ
    value = load_value l.code s.top.mem (l.word * 4 + l.selector)

    s1 : Run
    s1 = as_test l (base_time k) 20 s

    judged :
        (s1.failed ≡ not (value == l.expected))
        × (s1.top.mem ≡ s.top.mem)
        × (s1.top.mwr_i ≡ 1)
        × Ready (k + 1) s1
    judged =
        load_test_lem l.code l.word l.selector l.expected k l.message s h.code h.word h.selector hm
          high ready

    failed : s1.failed ≡ not (value == l.expected)
    failed = judged.0

    same : s1.top.mem ≡ s.top.mem
    same = judged.1

    high' : s1.top.mwr_i ≡ 1
    high' = judged.2

    ready' : Ready (k + 1) s1
    ready' = judged.3

    goes :
        {b : Bool}
        → s1.failed ≡ b
        → run_tests (map as_test (l ∷ ls)) (base_time k) 20 (running s)
          ≡ run_tests
              (map as_test ls)
              (base_time k + 20)
              20
              (if b then exited 1 (shutdown s1) else running s1)
    goes e =
        ap
          (λ b.
            run_tests (map as_test ls) (base_time k + 20) 20
              (if b then exited 1 (shutdown s1) else running s1))
          e

    next_base : base_time k + 20 ≡ base_time (k + 1)
    next_base = omega arith
