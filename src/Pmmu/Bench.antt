-- ===== src/Pmmu/Bench.antt =====
-- simulation/pmmu/misc.cpp and simulation/module.h, and what the tests of the other files of
-- simulation/pmmu have in common: a loop that drives the unit's inputs at fixed times, and a check
-- behind it.
use risc_v_rv32i_multi_cycle.Prelude.{
  ℕ, suc, ◌+◌, ◌-◌, ◌*◌, ◌%◌, Bool, true, false, List, [], ◌∷◌, ◌++◌, ◌==◌, ltb, if◌then◌else◌, w32,
  Bytes, codes,
}
use risc_v_rv32i_multi_cycle.Core.{flip}
use risc_v_rv32i_multi_cycle.TestBench.{Move, cycles}
use risc_v_rv32i_multi_cycle.Utils.{emit}
use risc_v_rv32i_multi_cycle.Pmmu.{Pmmu, eval}
use Prim.Native.String.{String}

-- `timeStep`, `assertionFailure`, the unit, and the lines printed.
pub record Run : Type 0 where
  pub top : Pmmu
  pub time : ℕ
  pub failed : Bool
  pub output : List Bytes

-- `wordToByteAddr`
abbrev pub word_to_byte_addr : ℕ → ℕ
word_to_byte_addr a = a * 4

-- `step`: the dump to the waveform file is not modelled.
abbrev pub step : ℕ → Pmmu → Pmmu
step time t =
    let t' = eval t in if suc time % 10 == 0 then record t' { clk_i = flip t'.clk_i } else t'

-- The unit, and the word address `imm + rs1` of a test, a local variable.
pub record Driven : Type 0 where
  pub unit : Pmmu
  pub word : ℕ

abbrev step_unit : ℕ → Driven → Driven
step_unit time d = record d { unit = step time d.unit }

-- The loop of a test, for so many rounds from a time on.
abbrev pub rounds : List (Move Driven) → ℕ → ℕ → ℕ → Driven → Driven
rounds = cycles step_unit

-- `while (timeStep < end) { …; timeStep = step(timeStep, tb, top); }`
unfoldable pub run_while : List (Move Driven) → ℕ → ℕ → ℕ → Pmmu → Driven
run_while ms base end time t = rounds ms base (end - time) time (record { unit = t; word = 0 })

-- An assignment to the unit's inputs.
abbrev on_unit : ℕ → (Pmmu → Pmmu) → Move Driven
on_unit at f = record { at = at; make = λ d. record d { unit = f d.unit } }

-- The same, with the word address that the test computes.
abbrev on_word : ℕ → ℕ → (Pmmu → Pmmu) → Move Driven
on_word at word f = record { at = at; make = λ d. record d { unit = f d.unit; word = word } }

-- The loop body of a load test.
abbrev pub load_moves : ℕ → ℕ → ℕ → List (Move Driven)
load_moves f word selector =
    on_unit 0 (λ t. record t { funct3 = f; mrd_i = 1 })
    ∷ on_word 5 word
        (λ t. record t { byte_addr_i = (word_to_byte_addr word + selector) % w32; mrd_i = 0 })
    ∷ on_unit 20 (λ t. record t { mrd_i = 1 })
    ∷ []

-- The loop body of the test that stores a word.
abbrev pub store_word_moves : ℕ → ℕ → List (Move Driven)
store_word_moves word value =
    on_unit 0 (λ t. record t { funct3 = 2; mwr_i = 1 })
    ∷ on_word 5 word (λ t. record t {
      mwr_i = 0;
      wd_i = value % w32;
      byte_addr_i = (word_to_byte_addr word + 0) % w32;
    })
    ∷ on_unit 20 (λ t. record t { mwr_i = 1 })
    ∷ []

-- The loop body of a test that stores a part of a word: it reads the word and then writes it.
abbrev pub store_part_moves : ℕ → ℕ → ℕ → ℕ → List (Move Driven)
store_part_moves f word selector value =
    on_unit 0 (λ t. record t { funct3 = f; mwr_i = 1 })
    ∷ on_word 5 word (λ t. record t {
      wd_i = value % w32;
      mrd_i = 0;
      byte_addr_i = (word_to_byte_addr word + selector) % w32;
    })
    ∷ on_unit 20 (λ t. record t { mrd_i = 1 })
    ∷ on_unit 25 (λ t. record t { mwr_i = 0 })
    ∷ on_unit 35 (λ t. record t { mwr_i = 1 })
    ∷ []

-- `std::hex` and `std::uppercase`, which `dumpMem` leaves on for all the lines after it
abbrev pub upper : Bytes → Bytes
upper [] = []
upper (c ∷ s) = (if ltb c b'a' then c else c - 32) ∷ upper s

unfoldable pub hex : ℕ → Bytes
unfolding emit
hex v = upper (emit 16 8 v [])

abbrev bar : Bytes
bar = codes "###########################################"

-- The assertion behind the loop of a test: what was expected, and what was there.
abbrev pub verdict : Bool → String → ℕ → Run → Run
verdict true message got s = record s { failed = false }
verdict false message got s = record s {
  failed = true;
  output = s.output ++ bar ∷ (codes message ++ hex got) ∷ bar ∷ [];
}

abbrev pub assert : String → ℕ → ℕ → Run → Run
assert message expected got s = verdict (got == expected) message got s

-- The loop of a test in a run, and what it leaves.
abbrev pub driven : List (Move Driven) → ℕ → ℕ → Run → Driven
driven ms base end s = run_while ms base end s.time s.top

abbrev pub after : ℕ → Driven → Run → Run
after end d s = record s { top = d.unit; time = s.time + (end - s.time) }

-- A test that loads: `rd_o` is compared behind the loop.
abbrev pub load_test : ℕ → ℕ → ℕ → ℕ → String → ℕ → ℕ → Run → Run
load_test f word selector expected message base duration s =
    let d = driven (load_moves f word selector) base (base + duration) s in
    assert message expected d.unit.rd_o (after (base + duration) d s)

-- A test that stores: the cell `imm + rs1` of the memory is compared behind the loop.
abbrev store_test : List (Move Driven) → ℕ → String → ℕ → ℕ → Run → Run
store_test ms expected message base duration s =
    let d = driven ms base (base + duration) s in
    assert message expected (d.unit.mem d.word) (after (base + duration) d s)

abbrev pub store_word_test : ℕ → ℕ → ℕ → String → ℕ → ℕ → Run → Run
store_word_test word value = store_test (store_word_moves word value)

abbrev pub store_part_test : ℕ → ℕ → ℕ → ℕ → ℕ → String → ℕ → ℕ → Run → Run
store_part_test f word selector value = store_test (store_part_moves f word selector value)
