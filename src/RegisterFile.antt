-- ===== src/RegisterFile.antt =====
-- The register file, modules/RegisterFile.sv: the design that the test bench simulation/register_file
-- drives.
use risc_v_rv32i_multi_cycle.Prelude.{ℕ, Bool, ◌&&◌, not, ◌==◌, if◌then◌else◌}
use risc_v_rv32i_multi_cycle.Core.{Unpacked, update}
pub mod Bench
pub mod Verdict
pub mod Accesses

-- The ports, the clock that the last `eval` saw, and the registers.
pub record RegisterFile : Type 0 where
  pub clk_i : ℕ
  pub reg_we_i : ℕ
  pub data_i : ℕ
  pub reg_dst_i : ℕ
  pub reg_src_a_i : ℕ
  pub reg_src_b_i : ℕ
  pub src_a_o : ℕ
  pub src_b_o : ℕ
  pub last_clk : ℕ
  pub bank : Unpacked

-- `reg_src_i == 0 ? 0 : bank[reg_src_i]`
abbrev pub source : Unpacked → ℕ → ℕ
source bank i = if i == 0 then 0 else bank i

-- The registers at the falling edge of the clock.
abbrev write_edge : RegisterFile → RegisterFile
write_edge t = record t {
  bank =
      if t.reg_we_i == 0 && not (t.reg_dst_i == 0)
      then update t.bank t.reg_dst_i t.data_i
      else t.bank;
}

-- The outputs follow the other signals.
abbrev route : RegisterFile → RegisterFile
route t = record t {
  src_a_o = source t.bank t.reg_src_a_i;
  src_b_o = source t.bank t.reg_src_b_i;
  last_clk = t.clk_i;
}

abbrev pub file_eval : RegisterFile → RegisterFile
file_eval t = route (if t.last_clk == 1 && t.clk_i == 0 then write_edge t else t)
