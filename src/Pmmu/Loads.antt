-- ===== src/Pmmu/Loads.antt =====
-- The tests of simulation/pmmu/unsigned_loads.cpp and signed_loads.cpp, each with the operation, the
-- word address `rs1 + imm`, the selector of a byte in the word, and the value that it expects.
use risc_v_rv32i_multi_cycle.Prelude.{ℕ, ◌+◌}
use risc_v_rv32i_multi_cycle.Pmmu.Bench.{Run, load_test}

abbrev pub i_type_lbu_byte4 : ℕ → ℕ → Run → Run
i_type_lbu_byte4 = load_test 4 10 3 85 "# expected rd_o = 0x55, got: "

abbrev pub i_type_lbu_byte3 : ℕ → ℕ → Run → Run
i_type_lbu_byte3 = load_test 4 10 2 170 "# expected rd_o = 0xAA, got: "

abbrev pub i_type_lbu_byte2 : ℕ → ℕ → Run → Run
i_type_lbu_byte2 = load_test 4 10 1 51 "# expected rd_o = 0x3, got: "

abbrev pub i_type_lbu_byte1 : ℕ → ℕ → Run → Run
i_type_lbu_byte1 = load_test 4 10 0 18 "# expected rd_o = 0x12, got: "

abbrev pub i_type_lhu_word2 : ℕ → ℕ → Run → Run
i_type_lhu_word2 = load_test 5 13 0 26150 "# expected rd_o = 0x6626, got: "

abbrev pub i_type_lhu_word1 : ℕ → ℕ → Run → Run
i_type_lhu_word1 = load_test 5 (4 + 10) 2 48042 "# expected rd_o = 0xBBAA, got: "

abbrev pub i_type_lw_addr0x0a : ℕ → ℕ → Run → Run
i_type_lw_addr0x0a = load_test 2 16 0 554775638 "# expected rd_o = 0x21113456, got: "

abbrev pub i_type_lb_byte1 : ℕ → ℕ → Run → Run
i_type_lb_byte1 = load_test 0 17 0 4294967184 "# expected rd_o = 0xFFFFFF90, got: "

abbrev pub i_type_lb_byte2 : ℕ → ℕ → Run → Run
i_type_lb_byte2 = load_test 0 18 1 4294967200 "# expected rd_o = 0xFFFFFFA0, got: "

abbrev pub i_type_lh_word2_addr_d18 : ℕ → ℕ → Run → Run
i_type_lh_word2_addr_d18 = load_test 1 18 2 4294955184 "# expected rd_o = 0xFFFFD0B0, got: "

abbrev pub i_type_lh_word2_addr_d19 : ℕ → ℕ → Run → Run
i_type_lh_word2_addr_d19 = load_test 1 19 2 6832 "# expected rd_o = 0x1AB0, got: "
