-- ===== src/RegisterFile/Bench.antt =====
-- simulation/register_file: RegisterFile_tb.cpp and misc.cpp.
use risc_v_rv32i_multi_cycle.Prelude.{
  ℕ, zero, suc, ◌-◌, ◌%◌, List, [], ◌∷◌, ◌++◌, ◌==◌, if◌then◌else◌, Bytes, codes, length, replicate,
  ltb,
}
use Prim.Native.String.{String}
use risc_v_rv32i_multi_cycle.Core.{Unpacked, flip}
use risc_v_rv32i_multi_cycle.Utils.{emit, fill_left}
use risc_v_rv32i_multi_cycle.TestBench.{Move, cycles}
use risc_v_rv32i_multi_cycle.RegisterFile.{RegisterFile, file_eval}

-- `step`
abbrev file_step : ℕ → RegisterFile → RegisterFile
file_step time t =
    let t' = file_eval t in if suc time % 10 == 0 then record t' { clk_i = flip t'.clk_i } else t'

abbrev clear_mem : RegisterFile → RegisterFile
clear_mem t = record t { bank = λ i. if ltb i 32 then 0 else t.bank i }

-- `%2d`
abbrev blank_left : ℕ → Bytes → Bytes
blank_left width s = replicate (width - length s) b' ' ++ s

-- The lines of `dumpMem` from a register on.
unfoldable pub register_rows : Unpacked → ℕ → ℕ → List Bytes
unfolding emit
register_rows bank i zero = []
register_rows bank i (suc n) =
    (codes "Reg ["
      ++ blank_left 2 (emit 10 10 i [])
      ++ codes "] = 0x"
      ++ fill_left 8 (emit 16 8 (bank i) []))
    ∷ register_rows bank (suc i) n

-- The inputs that are set before the loop, and those that are set in it.
abbrev set_up : RegisterFile → RegisterFile
set_up t = record t { reg_we_i = 1; data_i = 0xA0; reg_dst_i = 1; reg_src_a_i = 0; reg_src_b_i = 1 }

abbrev write_moves : List (Move RegisterFile)
write_moves =
    record { at = 10; make = λ t. record t { data_i = 0xA0; reg_we_i = 0 } }
    ∷ record { at = 25; make = λ t. record t { reg_we_i = 1 } }
    ∷ record {
      at = 30;
      make = λ t. record t { reg_dst_i = 2; reg_src_a_i = 2; reg_we_i = 0; data_i = 0xB0 };
    }
    ∷ record { at = 45; make = λ t. record t { reg_we_i = 1 } }
    ∷ record {
      at = 50;
      make = λ t. record t { reg_dst_i = 0; reg_src_a_i = 0; reg_we_i = 0; data_i = 0xC0 };
    }
    ∷ record { at = 65; make = λ t. record t { reg_we_i = 1 } }
    ∷ []

-- An exit code, the registers, and the lines printed.
pub record Ended : Type 0 where
  pub code : ℕ
  pub file : RegisterFile
  pub lines : List Bytes

-- A register, the name that its message has, and the value that is expected of it, as printed and as
-- a number.
pub record Check : Type 0 where
  pub index : ℕ
  pub name : String
  pub printed : String
  pub expected : ℕ

abbrev checks : List Check
checks =
    record { index = 0; name = "Reg 0 ("; printed = "0x00000000"; expected = 0 }
    ∷ record { index = 1; name = "Reg 1 ("; printed = "0x000000A0"; expected = 0xA0 }
    ∷ record { index = 2; name = "Reg 1 ("; printed = "0x000000B0"; expected = 0xB0 }
    ∷ []

-- The line of an assertion that fails at the end of the loop.
unfoldable pub complaint : Check → ℕ → Bytes
unfolding emit
complaint c got =
    codes c.name
    ++ emit 10 10 100 []
    ++ codes ") Assertion FAILED: expected "
    ++ codes c.printed
    ++ codes " got '"
    ++ emit 16 8 got []
    ++ codes "'"

-- The assertions one after the other, and the program's end behind them.
abbrev pub assertions : List Check → RegisterFile → List Bytes → Ended
assertions [] t lines = record {
  code = 0;
  file = t;
  lines =
      lines
      ++ codes "~~~~~~~~~~~~~~~~~~~~~~~~~~~~~~~~~~~~~~~~~~~" ∷ register_rows t.bank 0 32
      ++ codes "Finish TB." ∷ codes "Shutting down" ∷ [];
}
assertions (c ∷ cs) t lines =
    if t.bank c.index == c.expected then assertions cs t lines else record {
      code = 1;
      file = t;
      lines = lines ++ complaint c (t.bank c.index) ∷ codes "Shutting down" ∷ [];
    }

-- `main`
unfoldable pub file_main : RegisterFile → Ended
unfolding cycles
file_main t =
    let t1 = file_eval (clear_mem (file_eval t)) in
    let t2 = cycles file_step write_moves 0 100 0 (set_up t1) in
    assertions checks t2 (codes "Setting up" ∷ codes "Time (0) " ∷ register_rows t1.bank 0 32)
