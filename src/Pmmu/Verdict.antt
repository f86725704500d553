-- ===== src/Pmmu/Verdict.antt =====
-- The whole test bench of simulation/pmmu on the contents that modules/Memory.sv starts with where
-- `USE_STATIC` is defined.
use risc_v_rv32i_multi_cycle.Prelude.{ℕ, List, [], ◌∷◌, ◌==◌, ◌≡◌, refl, inl, inr, Bool-cases}
use risc_v_rv32i_multi_cycle.Core.{Unpacked, update}
use risc_v_rv32i_multi_cycle.Pmmu.{Pmmu}
use risc_v_rv32i_multi_cycle.TestBench.{cycles}
use risc_v_rv32i_multi_cycle.Pmmu.Bench.{Run, run_while}
use risc_v_rv32i_multi_cycle.Pmmu.Program.{exited, main, prepare, finish, dump_mem}

-- The cells that the initial block sets, and their contents.
abbrev pub static_cells : List (ℕ × ℕ)
static_cells =
    (0, 2)
    ∷ (1, 4)
    ∷ (2, 6)
    ∷ (3, 8)
    ∷ (4, 10)
    ∷ (5, 286326795)
    ∷ (6, 12)
    ∷ (7, 13)
    ∷ (8, 286331150)
    ∷ (9, 15)
    ∷ (10, 1437217554)
    ∷ (11, 39188)
    ∷ (12, 22)
    ∷ (13, 26150)
    ∷ (14, 3148484918)
    ∷ (15, 12870)
    ∷ (16, 554775638)
    ∷ (17, 144)
    ∷ (18, 3501236368)
    ∷ (19, 447783056)
    ∷ (20, 67119491)
    ∷ (21, 71829891)
    ∷ (22, 14745763)
    ∷ (1023, 80)
    ∷ []

abbrev pub set_cells : List (ℕ × ℕ) → Unpacked → Unpacked
set_cells [] m = m
set_cells ((i, v) ∷ cells) m = set_cells cells (update m i v)

-- The unit when the simulation starts: the initial block has run, and no clock has been seen.
unfoldable pub power_on : Pmmu → Pmmu
power_on t = record t { mem = set_cells static_cells t.mem; last_clk = 0 }

-- What the stores of the tests leave, one after the other.
abbrev written : Unpacked → Unpacked
written m =
    set_cells
      ((4, 185207048)
        ∷ (4, 185207048)
        ∷ (5, 286379229)
        ∷ (5, 2005454045)
        ∷ (8, 286331357)
        ∷ (8, 286379229)
        ∷ (8, 288607453)
        ∷ (8, 1144245469)
        ∷ [])
      m

written_lem :
    (m : Unpacked) (i : ℕ)
    → written m i ≡ set_cells ((4, 185207048) ∷ (5, 2005454045) ∷ (8, 1144245469) ∷ []) m i
written_lem m i = elim (Bool-cases (8 == i)) [
  | inl e ↦ rw e refl
  | inr e ↦ elim (Bool-cases (5 == i)) [
    | inl e' ↦ rw (e, e') refl
    | inr e' ↦ elim (Bool-cases (4 == i)) [
      | inl e'' ↦ rw (e, e', e'') refl
      | inr e'' ↦ rw (e, e', e'') refl
    ]
  ]
]

-- The program of the test bench, on the static contents of the memory and whatever else the memory
-- and the unit hold at the start, ends with EXIT_SUCCESS: none of its eighteen tests fails. Cells 4, 5
-- and 8 then have 0x0B0A0908, 0x7788CCDD and 0x4433CCDD, and no other cell has changed.
pub main_passes :
    (t : Pmmu)
    → (s : Run) × (main (power_on t) ≡ exited 0 s)
      × ((i : ℕ)
          → s.top.mem i
            ≡ set_cells
                ((4, 185207048) ∷ (5, 2005454045) ∷ (8, 1144245469) ∷ [])
                (set_cells static_cells t.mem)
                i)
unfolding main prepare finish dump_mem run_while cycles power_on
main_passes t = (_, refl, written_lem (set_cells static_cells t.mem))
