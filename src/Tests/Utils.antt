-- ===== src/Tests/Utils.antt =====
-- Runs of simulation/ranger_console/utils.cpp.
use risc_v_rv32i_multi_cycle.Prelude.{
  ◌≡◌, signed32, All, Bytes, List, arith, refl, none, some, [], ◌∷◌, pos, negsuc, ltb_ℤ,
  if◌then◌else◌, codes,
}
use risc_v_rv32i_multi_cycle.Utils.Decimal.{string_to_int-int_to_string}
use risc_v_rv32i_multi_cycle.Utils.Hex.{hex_string_to_int-int_to_hex}
use risc_v_rv32i_multi_cycle.Utils.Split.{IsWord}
use risc_v_rv32i_multi_cycle.Utils.BinaryBack.{bin_string_to_int-int_to_bin}
use risc_v_rv32i_multi_cycle.Utils.{
  split_string, int_to_hex, int_to_bin, int_to_string, string_to_int, hex_string_to_int,
  word_to_byte_addr, byte_to_word_addr, bin_string_to_int, value, out_of_range, invalid_argument,
}

split_runs : split_string (codes "  crg 9  0xAA ") ≡ codes "crg" ∷ codes "9" ∷ codes "0xAA" ∷ []
unfolding split_string
split_runs = refl

print_runs :
    (int_to_hex 0x0B0A0908 (codes "0x") ≡ codes "0x0b0a0908")
    × (int_to_bin (negsuc 0) [] ≡ codes "11111111111111111111111111111111")
    × (int_to_string (negsuc 41) ≡ codes "-42")
unfolding int_to_hex int_to_bin int_to_string
print_runs = (refl, refl, refl)

scan_runs :
    (string_to_int (codes "12ab") ≡ some (pos 12))
    × (string_to_int (codes "-5") ≡ some (negsuc 4))
    × (string_to_int (codes "x") ≡ some (pos 0))
    × (string_to_int (codes " ") ≡ none)
    × (hex_string_to_int (codes "0xfffffffe") ≡ some (negsuc 1))
    × (hex_string_to_int (codes "1ffffffff") ≡ some (negsuc 0))
    × (hex_string_to_int (codes "7F") ≡ some (pos 127))
unfolding string_to_int hex_string_to_int
scan_runs = (refl, refl, refl, refl, refl, refl, refl)

address_runs :
    (word_to_byte_addr (pos 0x60) ≡ pos 0x180)
    × (word_to_byte_addr (negsuc 0) ≡ negsuc 3)
    × (byte_to_word_addr (negsuc 4) ≡ negsuc 0)
unfolding word_to_byte_addr byte_to_word_addr
address_runs = (refl, refl, refl)

hex_string_to_int-int_to_hex_example :
    hex_string_to_int (int_to_hex 0xDEADBEEF []) ≡ some (signed32 0xDEADBEEF)
hex_string_to_int-int_to_hex_example = hex_string_to_int-int_to_hex 0xDEADBEEF (omega arith)

abbrev two_words : List Bytes
two_words = codes "mr" ∷ codes "0x10" ∷ []

two_words-IsWord : All IsWord two_words
two_words-IsWord = (((λ e. cc e), ground arith), (((λ e. cc e), ground arith), tt))

string_to_int-int_to_string_example :
    string_to_int (int_to_string (negsuc 2147483647)) ≡ some (negsuc 2147483647)
string_to_int-int_to_string_example = string_to_int-int_to_string (negsuc 2147483647) (omega arith)

bin_string_to_int-int_to_bin_example :
    bin_string_to_int (int_to_bin (negsuc 41) [])
    ≡ (if ltb_ℤ (negsuc 41) (pos 0) then out_of_range else value (negsuc 41))
bin_string_to_int-int_to_bin_example = bin_string_to_int-int_to_bin (negsuc 41) [] (omega arith)

stoi_runs :
    (bin_string_to_int (codes " -101x") ≡ value (negsuc 4))
    × (bin_string_to_int (codes "2") ≡ invalid_argument)
    × (bin_string_to_int (codes "+") ≡ invalid_argument)
unfolding bin_string_to_int
stoi_runs = (refl, refl, refl)
