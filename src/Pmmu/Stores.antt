-- ===== src/Pmmu/Stores.antt =====
-- The tests of simulation/pmmu/stype_stores.cpp, each with the operation, the word address
-- `imm + rs1`, the selector of a part of the word, the value, and what the cell shall hold then.
use risc_v_rv32i_multi_cycle.Prelude.{ℕ}
use risc_v_rv32i_multi_cycle.Pmmu.Bench.{Run, store_word_test, store_part_test}

abbrev pub s_type_sw : ℕ → ℕ → Run → Run
s_type_sw = store_word_test 4 185207048 185207048 "# expected BRAM[4] = 0x0B0A0908, got: "

abbrev pub s_type_sh_word1 : ℕ → ℕ → Run → Run
s_type_sh_word1 =
    store_part_test 1 5 0 2864434397 286379229 "# expected BRAM[5] = 0x1111CCDD, got: "

abbrev pub s_type_sh_word2 : ℕ → ℕ → Run → Run
s_type_sh_word2 =
    store_part_test 1 5 2 2864412552 2005454045 "# expected BRAM[5] = 0x7788CCDD, got: "

abbrev pub s_type_sb_byte1 : ℕ → ℕ → Run → Run
s_type_sb_byte1 =
    store_part_test 0 8 0 2864434397 286331357 "# expected BRAM[8] = 0x111111DD, got: "

abbrev pub s_type_sb_byte2 : ℕ → ℕ → Run → Run
s_type_sb_byte2 = store_part_test 0 8 1 286331340 286379229 "# expected BRAM[8] = 0x1111CCDD, got: "

abbrev pub s_type_sb_byte3 : ℕ → ℕ → Run → Run
s_type_sb_byte3 = store_part_test 0 8 2 286331187 288607453 "# expected BRAM[8] = 0x1133CCDD, got: "

abbrev pub s_type_sb_byte4 : ℕ → ℕ → Run → Run
s_type_sb_byte4 =
    store_part_test 0 8 3 286331204 1144245469 "# expected BRAM[8] = 0x4433CCDD, got: "
