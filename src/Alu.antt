-- ===== src/Alu.antt =====
-- modules/ALU.sv, at any width: the design that the test benches of simulation/alu drive.
use Prim.Native.Nat.{bit_and, bit_or, bit_xor}
use risc_v_rv32i_multi_cycle.Prelude.{
  ℕ, ◌+◌, ◌-◌, ◌*◌, ◌/◌, ◌%◌, ◌^◌, Bool, ltb, ◌==◌, if◌then◌else◌,
}
use risc_v_rv32i_multi_cycle.TypeEnums.{AluOp, add, sub, xor, or, and, sll, srl, sra, slt, sltu}
pub mod Bench
pub mod Arithmetic
pub mod Waveform

-- `ORes` and the carries of an operation.
pub record Computed : Type 0 where
  pub o_res : ℕ
  pub carry_borrow_l : ℕ
  pub carry_borrow_h : ℕ

-- A bit from a test.
abbrev pub bit : Bool → ℕ
bit b = if b then 1 else 0

-- `a[width-1]`
abbrev pub top_bit : ℕ → ℕ → ℕ
top_bit width a = a / 2 ^ (width - 1) % 2

-- The operations without a carry.
abbrev pub plain : ℕ → Computed
plain v = record { o_res = v; carry_borrow_l = 0; carry_borrow_h = 0 }

-- The case of the ALU. The left sides of the two assignments of `SubOp` are one bit wider than the
-- operands, so that bit is the borrow.
abbrev pub compute : ℕ → AluOp → ℕ → ℕ → Computed
compute width add a b = plain ((a + b) % 2 ^ width)
compute width sub a b = record {
  o_res = (a + 2 ^ width - b) % 2 ^ width;
  carry_borrow_l = bit (ltb (a % 2 ^ (width - 1)) (b % 2 ^ (width - 1)));
  carry_borrow_h = bit (ltb a b);
}
compute width and a b = plain (bit_and a b)
compute width or a b = plain (bit_or a b)
compute width xor a b = plain (bit_xor a b)
compute width sll a b = record {
  o_res = a * 2 ^ b % 2 ^ width;
  carry_borrow_l = 0;
  carry_borrow_h = top_bit width a;
}
compute width srl a b = record { o_res = a / 2 ^ b; carry_borrow_l = 0; carry_borrow_h = a % 2 }
compute width sra a b =
    plain ((top_bit width a * (2 ^ width - 1) * 2 ^ width + a) / 2 ^ b % 2 ^ width)
compute width slt a b =
    plain (if top_bit width a == top_bit width b then bit (ltb a b) else top_bit width a)
compute width sltu a b = plain (bit (ltb a b))

-- `flags_o`: V, N, C and Z
abbrev pub flags_of : ℕ → Computed → ℕ
flags_of width c =
    bit_xor c.carry_borrow_l c.carry_borrow_h * 8
    + top_bit width c.o_res * 4
    + c.carry_borrow_h * 2
    + bit (c.o_res == 0)

-- The ports.
pub record Alu : Type 0 where
  pub a_i : ℕ
  pub b_i : ℕ
  pub func_op_i : AluOp
  pub y_o : ℕ
  pub flags_o : ℕ

abbrev pub alu_eval : ℕ → Alu → Alu
alu_eval width u =
    let c = compute width u.func_op_i u.a_i u.b_i in
    record u { y_o = c.o_res; flags_o = flags_of width c }
