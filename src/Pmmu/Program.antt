-- ===== src/Pmmu/Program.antt =====
-- simulation/pmmu/Pmmu_tb.cpp: the program of the test bench, with `dumpMem` and `abort` of misc.cpp
-- and `setup` and `shutdown` of simulation/module.h.
use risc_v_rv32i_multi_cycle.Prelude.{
  ℕ, zero, suc, ◌+◌, ◌*◌, false, List, [], ◌∷◌, ◌++◌, if◌then◌else◌, Bytes, codes,
}
use risc_v_rv32i_multi_cycle.Core.{Unpacked}
use risc_v_rv32i_multi_cycle.Utils.{fill_left}
use risc_v_rv32i_multi_cycle.Pmmu.{Pmmu, eval}
use risc_v_rv32i_multi_cycle.Pmmu.Bench.{Run, hex, run_while, driven, after}
use risc_v_rv32i_multi_cycle.Pmmu.Loads.{
  i_type_lbu_byte4, i_type_lbu_byte3, i_type_lbu_byte2, i_type_lbu_byte1, i_type_lhu_word2,
  i_type_lhu_word1, i_type_lw_addr0x0a, i_type_lb_byte1, i_type_lb_byte2, i_type_lh_word2_addr_d18,
  i_type_lh_word2_addr_d19,
}
use risc_v_rv32i_multi_cycle.Pmmu.Stores.{
  s_type_sw, s_type_sh_word1, s_type_sh_word2, s_type_sb_byte1, s_type_sb_byte2, s_type_sb_byte3,
  s_type_sb_byte4,
}

-- The lines of `dumpMem` from a cell on.
pub dump_rows : Unpacked → ℕ → ℕ → List Bytes
unfolding hex
dump_rows m i zero = []
dump_rows m i (suc n) =
    (codes "Memory[" ++ fill_left 2 (hex i) ++ codes "] = 0x" ++ fill_left 8 (hex (m i)))
    ∷ dump_rows m (suc i) n

abbrev pub say : List Bytes → Run → Run
say lines s = record s { output = s.output ++ lines }

unfoldable pub dump_mem : Run → Run
unfolding dump_rows
dump_mem s = say (dump_rows s.top.mem 0 20) s

abbrev setup : Run → Run
setup = say (codes "Setting up" ∷ [])

abbrev pub shutdown : Run → Run
shutdown = say (codes "Shutting down" ∷ [])

-- The program runs, or has ended with an exit code.
pub data Outcome : Type 0 where
  running : Run → Outcome
  exited : ℕ → Run → Outcome

-- `abort`: `EXIT_FAILURE`
abbrev abort : Run → Outcome
abort s = exited 1 (shutdown s)

-- `timeStep = test(…); if (assertionFailure) abort(tb);`
abbrev pub run_test : (Run → Run) → Outcome → Outcome
run_test f (running s) = let s' = f s in if s'.failed then abort s' else running s'
run_test f (exited code s) = exited code s

-- One test after the other, each at the base time of the one before and the duration.
abbrev pub run_tests : List (ℕ → ℕ → Run → Run) → ℕ → ℕ → Outcome → Outcome
run_tests [] base duration o = o
run_tests (f ∷ fs) base duration o =
    run_tests fs (base + duration) duration (run_test (f base duration) o)

abbrev short_tests : List (ℕ → ℕ → Run → Run)
short_tests =
    i_type_lbu_byte4 ∷ i_type_lbu_byte3 ∷ i_type_lbu_byte2 ∷ i_type_lbu_byte1 ∷ i_type_lhu_word2
    ∷ i_type_lhu_word1 ∷ i_type_lw_addr0x0a ∷ i_type_lb_byte1 ∷ i_type_lb_byte2
    ∷ i_type_lh_word2_addr_d18 ∷ i_type_lh_word2_addr_d19 ∷ s_type_sw ∷ []

abbrev long_tests : List (ℕ → ℕ → Run → Run)
long_tests =
    s_type_sh_word1 ∷ s_type_sh_word2 ∷ s_type_sb_byte1 ∷ s_type_sb_byte2 ∷ s_type_sb_byte3
    ∷ s_type_sb_byte4 ∷ []

-- The starting defaults, the first `eval` and the first dump.
unfoldable pub prepare : Pmmu → Run
unfolding dump_mem
prepare t =
    let t' = record t { wd_i = 0; funct3 = 0; mwr_i = 1; mrd_i = 1; clk_i = 0 } in
    dump_mem (setup (record { top = eval t'; time = 0; failed = false; output = [] }))

-- Behind the tests: 25 steps more, the last dump, and `EXIT_SUCCESS`.
unfoldable pub finish : Outcome → Outcome
unfolding dump_mem run_while
finish (running s) =
    let s1 = say (codes "Running to duration" ∷ []) s in
    let d = driven [] 0 (s1.time + 25) s1 in
    let s2 = after (s1.time + 25) d s1 in
    exited 0 (shutdown (dump_mem (say (codes "Finish TB." ∷ []) s2)))
finish (exited code s) = exited code s

unfoldable pub main : Pmmu → Outcome
unfolding prepare finish run_while hex
main t = finish (
    run_tests long_tests (10 + 20 * 11 + 40) 40 (run_tests short_tests 10 20 (running (prepare t))))
