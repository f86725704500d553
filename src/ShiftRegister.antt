-- ===== src/ShiftRegister.antt =====
-- The shift register modules/ParallelLoadShiftReg.sv, and its test bench simulation/para_load_shift_reg.
use risc_v_rv32i_multi_cycle.Prelude.{
  ℕ, suc, ◌+◌, ◌*◌, ◌/◌, ◌%◌, ◌&&◌, List, [], ◌∷◌, ◌++◌, ◌==◌, if◌then◌else◌, Bytes, codes,
}
use risc_v_rv32i_multi_cycle.Core.{flip}
use risc_v_rv32i_multi_cycle.TestBench.{Move, cycles, outputs}
pub mod Waveform

-- The ports, the clock that the last `eval` saw, and the register.
pub record ShiftRegister : Type 0 where
  pub clk : ℕ
  pub load : ℕ
  pub reset : ℕ
  pub shift : ℕ
  pub data_in : ℕ
  pub data_out : ℕ
  pub last_clk : ℕ
  pub q : ℕ

-- The register at the falling edge of the clock.
abbrev shift_edge : ShiftRegister → ShiftRegister
shift_edge u =
    if u.reset == 0
    then record u { q = 0 }
    else if u.load == 0
    then record u { q = u.data_in }
    else if u.shift == 0
    then record u { q = u.q * 2 % 256 }
    else u

abbrev shift_eval : ShiftRegister → ShiftRegister
shift_eval u =
    let u' = if u.last_clk == 1 && u.clk == 0 then shift_edge u else u in
    record u' { last_clk = u.clk; data_out = u'.q / 128 % 2 }

-- `step`
abbrev shift_step : ℕ → ShiftRegister → ShiftRegister
shift_step time u =
    let u' = shift_eval u in if suc time % 10 == 0 then record u' { clk = flip u'.clk } else u'

abbrev shift_move : ℕ → (ShiftRegister → ShiftRegister) → Move ShiftRegister
shift_move time f = record { at = time; make = f }

-- The moves of the loop for a byte: `base` is 10 - 10 for the first and 330 - 10 for the second.
abbrev byte_moves : ℕ → ℕ → List (Move ShiftRegister)
byte_moves base b =
    shift_move (base + 10) (λ u. record u { load = 1; data_in = b })
    ∷ shift_move (base + 80) (λ u. record u { load = 0 })
    ∷ shift_move (base + 100) (λ u. record u { load = 1; shift = 0 })
    ∷ shift_move (base + 260) (λ u. record u { shift = 1 })
    ∷ []

-- The lines printed, and the output at each time step.
pub record ShiftTraced : Type 0 where
  pub lines : List Bytes
  pub port : List ℕ

-- `main` with two bytes.
unfoldable pub shift_program : ℕ → ℕ → ShiftRegister → ShiftTraced
unfolding cycles outputs
shift_program b1 b2 u =
    let start = shift_eval (record u { load = 1; reset = 1; shift = 1 }) in
    let moves = byte_moves 0 b1 ++ byte_moves 320 b2 in
    let end = shift_eval (record (cycles shift_step moves 0 1000 0 start) { load = 1 }) in
    record {
      lines =
          codes "Setting up" ∷ codes "Time (0) " ∷ codes "Finish TB." ∷ codes "Shutting down" ∷ [];
      port =
          outputs (λ v. v.data_out) shift_step moves 1000 0 start
          ++ outputs (λ v. v.data_out) shift_step [] 100 1000 end;
    }

-- `main`
abbrev shift_main : ShiftRegister → ShiftTraced
shift_main = shift_program 0xA3 0xB4
