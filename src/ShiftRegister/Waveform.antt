-- ===== src/ShiftRegister/Waveform.antt =====
-- What the waveform of simulation/para_load_shift_reg shows: each byte in series.
use risc_v_rv32i_multi_cycle.Prelude.{
  ℕ, ◌*◌, ◌/◌, ◌%◌, ◌<◌, ◌≡◌, refl, List, [], ◌∷◌, ◌++◌, map, replicate, take, drop, arith, ap, ◌∙◌,
}
use risc_v_rv32i_multi_cycle.Core.{byte_bit}
use risc_v_rv32i_multi_cycle.TestBench.{cycles, outputs}
use risc_v_rv32i_multi_cycle.ShiftRegister.{ShiftRegister, shift_program}

-- Each value for a clock period of twenty time steps.
abbrev pub periods : List ℕ → List ℕ
periods [] = []
periods (x ∷ xs) = replicate 20 x ++ periods xs

-- The highest bit after each number of shifts.
abbrev top_bits : ℕ → List ℕ
top_bits b =
    b / 128 % 2
    ∷ b * 2 % 256 / 128 % 2
    ∷ b * 2 % 256 * 2 % 256 / 128 % 2
    ∷ b * 2 % 256 * 2 % 256 * 2 % 256 / 128 % 2
    ∷ b * 2 % 256 * 2 % 256 * 2 % 256 * 2 % 256 / 128 % 2
    ∷ b * 2 % 256 * 2 % 256 * 2 % 256 * 2 % 256 * 2 % 256 / 128 % 2
    ∷ b * 2 % 256 * 2 % 256 * 2 % 256 * 2 % 256 * 2 % 256 * 2 % 256 / 128 % 2
    ∷ b * 2 % 256 * 2 % 256 * 2 % 256 * 2 % 256 * 2 % 256 * 2 % 256 * 2 % 256 / 128 % 2
    ∷ []

-- The bits of a byte, the highest first.
abbrev pub serial_bits : ℕ → List ℕ
serial_bits b = map (byte_bit b) (7 ∷ 6 ∷ 5 ∷ 4 ∷ 3 ∷ 2 ∷ 1 ∷ 0 ∷ [])

top_bits_lem : (b : ℕ) → b < 256 → top_bits b ≡ serial_bits b
top_bits_lem b h = ground arith

-- Before the first evaluation: the clock is low and has been.
abbrev pub shift_rest : ShiftRegister → ShiftRegister
shift_rest u = record u { clk = 0; last_clk = 0 }

shown :
    (b1 b2 : ℕ) (u : ShiftRegister)
    → let port = (shift_program b1 b2 (shift_rest u)).port in
      (take 160 (drop 80 port) ≡ periods (top_bits b1))
      × (take 160 (drop 400 port) ≡ periods (top_bits b2))
unfolding shift_program cycles outputs
shown b1 b2 u = (refl, refl)

-- The program of the test bench with any two bytes, whatever the register holds at the start: from the
-- falling edge that loads a byte, at the times 80 and 400, the output shows its bits, the highest first,
-- each for a period of the clock.
pub shift_program-serial_bits :
    (b1 b2 : ℕ) (u : ShiftRegister)
    → b1 < 256
    → b2 < 256
    → let port = (shift_program b1 b2 (shift_rest u)).port in
      (take 160 (drop 80 port) ≡ periods (serial_bits b1))
      × (take 160 (drop 400 port) ≡ periods (serial_bits b2))
shift_program-serial_bits b1 b2 u h1 h2 =
    let (p, q) = shown b1 b2 u in
    (p ∙ ap periods (top_bits_lem b1 h1), q ∙ ap periods (top_bits_lem b2 h2))
