-- ===== src/Tests/Pmmu.antt =====
-- The theorems on the test bench of the memory management unit, at concrete values.
use risc_v_rv32i_multi_cycle.Prelude.{
  ℕ, ◌+◌, ◌*◌, ◌%◌, ◌^◌, ◌≡◌, refl, not, false, ◌==◌, [], ◌∷◌, arith, map, List, All,
}
use risc_v_rv32i_multi_cycle.Core.{Unpacked}
use risc_v_rv32i_multi_cycle.Pmmu.{Pmmu}
use risc_v_rv32i_multi_cycle.Pmmu.Bytes.{AreWords, byte_at, load_value}
use risc_v_rv32i_multi_cycle.Pmmu.Merging.{stored}
use risc_v_rv32i_multi_cycle.Pmmu.Bench.{Run, load_test, store_part_test, store_word_test}
use risc_v_rv32i_multi_cycle.Pmmu.Program.{main, running, exited, run_tests}
use risc_v_rv32i_multi_cycle.Pmmu.Protocol.{
  Ready, load_test_lem, store_part_test_lem, store_word_test_lem,
}
use risc_v_rv32i_multi_cycle.Pmmu.RoundTrip.{load_test-store_part_test}
use risc_v_rv32i_multi_cycle.Pmmu.Sequence.{
  Load, InRange, as_test, all_found, outcome, run_tests-loads,
}
use risc_v_rv32i_multi_cycle.Pmmu.Verdict.{power_on, set_cells, static_cells, main_passes}

-- Every cell has some bits of its own.
abbrev noise : Unpacked
noise i = (i * 16909321 + 2863311530) % 2 ^ 32

noise-AreWords : AreWords noise
noise-AreWords i = omega arith

abbrev unit : Pmmu
unit = record {
  clk_i = 1;
  funct3 = 0;
  byte_addr_i = 0;
  wd_i = 0;
  mwr_i = 1;
  mrd_i = 0;
  rd_o = 0;
  last_clk = 0;
  storage = 0;
  mem = noise;
}

abbrev fourth : Run
fourth = record { top = unit; time = 70; failed = false; output = [] }

fourth-Ready : Ready 3 fourth
fourth-Ready = record { at_base = refl; rising = record { high = refl; was_low = refl } }

main_passes_example :
    (s : Run) × (main (power_on unit) ≡ exited 0 s)
    × ((i : ℕ)
        → s.top.mem i
          ≡ set_cells
              ((4, 185207048) ∷ (5, 2005454045) ∷ (8, 1144245469) ∷ [])
              (set_cells static_cells noise)
              i)
main_passes_example = main_passes unit

load_test_lem_example :
    ((load_test 1 1000 2 4321 "# got: " 70 20 fourth).failed
      ≡ not (load_value 1 noise 4002 == 4321))
    × ((load_test 1 1000 2 4321 "# got: " 70 20 fourth).top.mem ≡ noise)
    × ((load_test 1 1000 2 4321 "# got: " 70 20 fourth).top.mwr_i ≡ 1)
    × Ready 4 (load_test 1 1000 2 4321 "# got: " 70 20 fourth)
load_test_lem_example =
    load_test_lem 1 1000 2 4321 3 "# got: " fourth (omega arith) (omega arith) (omega arith)
      noise-AreWords refl fourth-Ready

store_part_test_lem_example :
    ((x : ℕ)
      → byte_at (store_part_test 0 1000 3 439041101 99 "# got: " 70 40 fourth).top.mem x
        ≡ stored 1 4003 439041101 noise x)
    × ((store_part_test 0 1000 3 439041101 99 "# got: " 70 40 fourth).failed
        ≡ not ((store_part_test 0 1000 3 439041101 99 "# got: " 70 40 fourth).top.mem 1000 == 99))
    × AreWords (store_part_test 0 1000 3 439041101 99 "# got: " 70 40 fourth).top.mem
    × ((store_part_test 0 1000 3 439041101 99 "# got: " 70 40 fourth).top.mwr_i ≡ 1)
    × Ready 5 (store_part_test 0 1000 3 439041101 99 "# got: " 70 40 fourth)
store_part_test_lem_example =
    store_part_test_lem 0 1000 3 439041101 99 3 "# got: " fourth (omega arith) (omega arith)
      (omega arith) (omega arith) noise-AreWords fourth-Ready

store_word_test_lem_example :
    ((x : ℕ)
      → byte_at (store_word_test 1000 439041101 439041101 "# got: " 70 20 fourth).top.mem x
        ≡ stored 4 4000 439041101 noise x)
    × ((store_word_test 1000 439041101 439041101 "# got: " 70 20 fourth).failed ≡ false)
    × AreWords (store_word_test 1000 439041101 439041101 "# got: " 70 20 fourth).top.mem
    × ((store_word_test 1000 439041101 439041101 "# got: " 70 20 fourth).top.mwr_i ≡ 0)
    × Ready 4 (store_word_test 1000 439041101 439041101 "# got: " 70 20 fourth)
store_word_test_lem_example =
    store_word_test_lem 1000 439041101 439041101 3 "# got: " fourth (omega arith) (omega arith)
      noise-AreWords fourth-Ready

load_test-store_part_test_example :
    (load_test 5 1000 2 15437 "# got: " 110 20
      (store_part_test 1 1000 2 439041101 99 "# got: " 70 40 fourth)).failed
    ≡ false
load_test-store_part_test_example =
    load_test-store_part_test 1 1000 2 439041101 99 3 "# got: " "# got: " fourth (omega arith)
      (omega arith) (omega arith) refl (omega arith) noise-AreWords fourth-Ready

abbrev two_loads : List Load
two_loads =
    record { code = 4; word = 10; selector = 3; expected = 180; message = "# got: " }
    ∷ record { code = 0; word = 17; selector = 0; expected = 1; message = "# got: " }
    ∷ []

two_loads-InRange : All InRange two_loads
two_loads-InRange = (
  record { code = omega arith; word = omega arith; selector = omega arith },
  (record { code = omega arith; word = omega arith; selector = omega arith }, tt),
)

run_tests-loads_example :
    (s' : Run) × (run_tests (map as_test two_loads) 70 20 (running fourth)
      ≡ outcome (all_found two_loads noise) s')
    × (s'.top.mem ≡ noise)
run_tests-loads_example =
    run_tests-loads two_loads 3 fourth two_loads-InRange noise-AreWords refl fourth-Ready
