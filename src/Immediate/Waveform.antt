-- ===== src/Immediate/Waveform.antt =====
-- What the waveform of simulation/immediate shows.
use risc_v_rv32i_multi_cycle.Prelude.{ℕ, ◌+◌, ◌*◌, ◌<◌, ◌≡◌, refl, some, List, [], ◌∷◌, get_elem?}
use risc_v_rv32i_multi_cycle.TestBench.Shown.{shows, checked}
use risc_v_rv32i_multi_cycle.Immediate.{Ports, imm_dumps, imm_main}

-- The immediates of the six instructions: 0, the shift amount 3, 8, 16, 0x87654000 and 32.
abbrev immediates : List ℕ
immediates = 0 ∷ 3 ∷ 8 ∷ 16 ∷ 0x87654000 ∷ 32 ∷ []

-- The waveform of Immediate_tb.cpp has, in each of the ten time steps behind each of its six
-- instructions, the immediate of the instruction, whatever the ports hold at the start.
imm_main_shows :
    (t : Ports) (k i : ℕ)
    → k < 6
    → i < 10
    → (d : Ports) × (get_elem? (imm_main t).dumps (10 + (10 * k + i)) ≡ some d)
      × (get_elem? immediates k ≡ some d.imm_o)
unfolding imm_dumps shows
imm_main_shows t = checked (λ d. d.imm_o) (imm_main t).dumps immediates 6 refl
