-- ===== src/Simulation/Ebreak.antt =====
-- `run_to_ebreak`: which instructions end it.
use risc_v_rv32i_multi_cycle.Prelude.{
  ℕ, suc, ◌+◌, ◌*◌, ◌/◌, ◌%◌, ◌^◌, ◌<◌, ◌≡◌, ◌↔◌, true, arith, to_u32-signed32, w32,
}
use risc_v_rv32i_multi_cycle.Core.{Core}
use risc_v_rv32i_multi_cycle.Model.{Model}
use risc_v_rv32i_multi_cycle.Simulation.{step, at_ebreak, run_to_ebreak}
use risc_v_rv32i_multi_cycle.Simulation.Steps.{iterate, IsFirst, run_for-IsFirst}

seven_bits :
    (v : ℕ)
    → (v / 64 % 2 ≡ 1)
      × (v / 32 % 2 ≡ 1)
      × (v / 16 % 2 ≡ 1)
      × (v / 8 % 2 ≡ 0)
      × (v / 4 % 2 ≡ 0)
      × (v / 2 % 2 ≡ 1)
      × (v % 2 ≡ 1)
    → v % 128 ≡ 115
seven_bits v h = omega arith

seven_bits_back :
    (v : ℕ)
    → v % 128 ≡ 115
    → (v / 64 % 2 ≡ 1)
      × (v / 32 % 2 ≡ 1)
      × (v / 16 % 2 ≡ 1)
      × (v / 8 % 2 ≡ 0)
      × (v / 4 % 2 ≡ 0)
      × (v / 2 % 2 ≡ 1)
      × (v % 2 ≡ 1)
seven_bits_back v h = omega arith

-- An instruction word passes the test exactly if its opcode is SYSTEM and bit 20 is set.
at_ebreak_lem :
    {H : Type 0} (m : Model H)
    → m.core.ir < w32
    → (at_ebreak m ≡ true) ↔ ((m.core.ir % 128 ≡ 0x73) × (m.core.ir / 2 ^ 20 % 2 ≡ 1))
unfolding at_ebreak
at_ebreak_lem m h =
    rw (to_u32-signed32 m.core.ir h)
      (ground (arith, seven_bits m.core.ir, seven_bits_back m.core.ir))

-- `rn ebreak` makes at least one step and at most 100000, and stops at the first one after which
-- the instruction register passes the test.
pub run_to_ebreak_lem :
    {H : Type 0} (eval : Core H → Core H) (m : Model H)
    → (k : ℕ) × (run_to_ebreak eval m ≡ iterate eval (suc k) m)
      × IsFirst eval at_ebreak (step eval m) 99999 k
unfolding run_to_ebreak
run_to_ebreak_lem eval m = run_for-IsFirst eval 99999 at_ebreak m

-- A SYSTEM instruction: its upper twelve bits (the CSR's address), and its other fields.
abbrev pub system_word : ℕ → ℕ → ℕ → ℕ → ℕ
system_word csr rs1 funct3 rd = csr * 1048576 + rs1 * 32768 + funct3 * 4096 + rd * 128 + 0x73

-- The test does not look at `funct3`: every SYSTEM instruction whose upper twelve bits are odd
-- passes it, an access to a CSR with an odd address (mtvec, mepc) as well as `ebreak`.
pub at_ebreak-system_word :
    {H : Type 0} (m : Model H) (csr rs1 funct3 rd : ℕ)
    → csr < 4096
    → rs1 < 32
    → funct3 < 8
    → rd < 32
    → m.core.ir ≡ system_word csr rs1 funct3 rd
    → (at_ebreak m ≡ true) ↔ (csr % 2 ≡ 1)
at_ebreak-system_word m csr rs1 funct3 rd a b c d e =
    let (into, back) = at_ebreak_lem m (omega arith) in
    (λ h. let (_, bit) = into h in omega arith, λ h. back (omega arith, omega arith))
