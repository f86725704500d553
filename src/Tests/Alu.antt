-- ===== src/Tests/Alu.antt =====
-- The theorems on the ALU and its test benches, at concrete values.
use risc_v_rv32i_multi_cycle.Prelude.{
  ◌/◌, ◌%◌, ◌≡◌, not, ◌==◌, ltb, arith, ◌-ℤ◌, signed32, ltb_ℤ, to_u32,
}
use risc_v_rv32i_multi_cycle.TypeEnums.{add, sub, sra}
use risc_v_rv32i_multi_cycle.Alu.{Alu, compute, flags_of, bit}
use risc_v_rv32i_multi_cycle.Alu.Arithmetic.{overflows, div_floor, flags_of-sub, compute-sra}

abbrev ports : Alu
ports = record { a_i = 77; b_i = 5; func_op_i = add; y_o = 9; flags_o = 15 }

-- The smallest number less one.
flags_of-sub_example :
    (flags_of 32 (compute 32 sub 2147483648 1) % 2 ≡ bit (2147483648 == 1))
    × (flags_of 32 (compute 32 sub 2147483648 1) / 2 % 2 ≡ bit (ltb 2147483648 1))
    × (flags_of 32 (compute 32 sub 2147483648 1) / 8 % 2
        ≡ bit (overflows (signed32 2147483648 -ℤ signed32 1)))
    × ((flags_of 32 (compute 32 sub 2147483648 1) / 4 % 2
          == flags_of 32 (compute 32 sub 2147483648 1) / 8 % 2)
        ≡ not (ltb_ℤ (signed32 2147483648) (signed32 1)))
flags_of-sub_example = flags_of-sub 2147483648 1 (omega arith) (omega arith)

compute-sra_example :
    (compute 32 sra 4294967289 2).o_res ≡ to_u32 (div_floor (signed32 4294967289) 4)
compute-sra_example = compute-sra 4294967289 2 (omega arith) (omega arith)
