-- ===== src/Core.antt =====
-- The verilated processor as simulation/ranger_console sees it: the public fields of the classes
-- that Verilator generates from modules/*.sv, and a rest that no C++ file reads. `eval` itself is
-- generated code, so it is a parameter of the modules that step the simulation.
use Prim.Native.Nat.{bit_xor}
use risc_v_rv32i_multi_cycle.Prelude.{
  ℕ, zero, suc, ◌-◌, ◌/◌, ◌%◌, ◌^◌, ◌<◌, ◌≡◌, refl, Option, none, some, arith, ltb, ◌==◌,
  if◌then◌else◌,
}

-- A word memory: `VlUnpacked<IData, N>`. An index out of range is undefined.
abbrev pub Unpacked : Type 0
Unpacked = ℕ → ℕ

abbrev pub mem_words : ℕ
mem_words = 1024

abbrev pub bank_words : ℕ
bank_words = 32

unfoldable pub read_word : ℕ → Unpacked → ℕ → Option ℕ
read_word size m i = if ltb i size then some (m i) else none

abbrev pub update : Unpacked → ℕ → ℕ → Unpacked
update m i v j = if i == j then v else m j

unfoldable pub write_word : ℕ → Unpacked → ℕ → ℕ → Option Unpacked
write_word size m i v = if ltb i size then some (update m i v) else none

-- `top`, `risc`, `cm`, `ir`, `pc` and so on of `Model`; `pc->data_o` is `pc`.
pub record Core (H : Type 0) : Type 0 where
  pub clk_i : ℕ
  pub reset_i : ℕ
  pub irq_i : ℕ
  pub ready_o : ℕ
  pub pc_src_out : ℕ
  pub pmmu_out : ℕ
  pub cm_ready : ℕ
  pub state : ℕ
  pub next_state : ℕ
  pub vector_state : ℕ
  pub next_vector_state : ℕ
  pub ir_state : ℕ
  pub next_ir_state : ℕ
  pub pc_ld : ℕ
  pub pc_src : ℕ
  pub mem_wr : ℕ
  pub mem_rd : ℕ
  pub addr_src : ℕ
  pub rst_src : ℕ
  pub mstatus : ℕ
  pub mie : ℕ
  pub mip : ℕ
  pub mepc : ℕ
  pub mtvec : ℕ
  pub ir_ld : ℕ
  pub ir : ℕ
  pub pc : ℕ
  pub pc_prior : ℕ
  pub mdr : ℕ
  pub rsa : ℕ
  pub rsb : ℕ
  pub wd_select : ℕ
  pub wd_out : ℕ
  pub a_select : ℕ
  pub a_out : ℕ
  pub b_select : ℕ
  pub b_out : ℕ
  pub func_op : ℕ
  pub alu_y : ℕ
  pub alu_ld : ℕ
  pub alu_out : ℕ
  pub alu_flags_ld : ℕ
  pub alu_flags : ℕ
  pub imm_o : ℕ
  pub bank : Unpacked
  pub mem : Unpacked
  pub hidden : H

-- A bit of a word.
abbrev pub byte_bit : ℕ → ℕ → ℕ
byte_bit b i = b / 2 ^ i % 2

-- `clk ^ 1`
abbrev pub flip : ℕ → ℕ
flip c = bit_xor c 1

pub flip-flip : (c : ℕ) → c < 2 → flip (flip c) ≡ c
flip-flip zero h = refl
flip-flip (suc zero) h = refl
flip-flip (suc (suc c)) h = absurd (omega arith)

pub flip_lem : (c : ℕ) → c < 2 → flip c ≡ 1 - c
flip_lem zero h = refl
flip_lem (suc zero) h = refl
flip_lem (suc (suc c)) h = absurd (omega arith)

-- Verilator's `eval` reads the inputs of the top module and does not write them.
pub record KeepsInputs {H : Type 0} (eval : Core H → Core H) : Type 0 where
  pub clock : (c : Core H) → (eval c).clk_i ≡ c.clk_i
  pub reset : (c : Core H) → (eval c).reset_i ≡ c.reset_i
  pub irq : (c : Core H) → (eval c).irq_i ≡ c.irq_i
