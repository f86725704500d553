-- ===== src/Alu/Waveform.antt =====
-- What the waveforms of simulation/alu show, from whatever the ports hold at the start.
use risc_v_rv32i_multi_cycle.Prelude.{ℕ, ◌+◌, ◌*◌, ◌<◌, ◌≡◌, refl, some, List, [], ◌∷◌, get_elem?}
use risc_v_rv32i_multi_cycle.TestBench.Shown.{shows, checked}
use risc_v_rv32i_multi_cycle.Alu.{Alu}
use risc_v_rv32i_multi_cycle.Alu.Bench.{alu_main, alu_8bit_main, waveform}

-- The results that the comments of ALU_tb.cpp name, or those of its operands, stimulus by stimulus.
abbrev results : List ℕ
results = 10 ∷ 3 ∷ 0 ∷ 2 ∷ 7 ∷ 7 ∷ 6 ∷ 1 ∷ 0 ∷ 1 ∷ 0 ∷ 0x240 ∷ 0x24 ∷ 0x24 ∷ 0xE0000024 ∷ []

-- The flags behind the stimuli of ALU_8bit_tb.cpp, V, N, C and Z as the digits of a binary number.
abbrev flag_results : List ℕ
flag_results = 0b0000 ∷ 0b0000 ∷ 0b0110 ∷ 0b1110 ∷ 0b1000 ∷ 0b0001 ∷ 0b0100 ∷ 0b0100 ∷ 0b0000 ∷ []

-- The waveform of ALU_tb.cpp has, in each of the ten time steps behind each of its fifteen stimuli, the
-- result that the stimulus is there to show, whatever the ports hold at the start.
alu_main_shows :
    (u : Alu) (k i : ℕ)
    → k < 15
    → i < 10
    → (d : Alu) × (get_elem? (alu_main u).dumps (10 + (10 * k + i)) ≡ some d)
      × (get_elem? results k ≡ some d.y_o)
unfolding waveform shows
alu_main_shows u = checked (λ d. d.y_o) (alu_main u).dumps results 15 refl

-- The waveform of ALU_8bit_tb.cpp has, in each of the ten time steps behind each of its nine stimuli,
-- the flags of the list `flag_results`, whatever the ports hold at the start: those of its comments
-- behind the subtractions, and neither V nor C behind an addition.
alu_8bit_main_shows :
    (u : Alu) (k i : ℕ)
    → k < 9
    → i < 10
    → (d : Alu) × (get_elem? (alu_8bit_main u).dumps (10 + (10 * k + i)) ≡ some d)
      × (get_elem? flag_results k ≡ some d.flags_o)
unfolding waveform shows
alu_8bit_main_shows u = checked (λ d. d.flags_o) (alu_8bit_main u).dumps flag_results 9 refl
