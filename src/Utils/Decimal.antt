-- ===== src/Utils/Decimal.antt =====
-- `int_to_string` and `string_to_int` (simulation/ranger_console/utils.cpp).
use risc_v_rv32i_multi_cycle.Prelude.{
  ℕ, suc, ◌<◌, ◌≡◌, some, [], ◌∷◌, arith, All, Bytes, ℤ, pos, negsuc, IsInt, w64, ◌∙◌,
}
use risc_v_rv32i_multi_cycle.Utils.{emit, scan, int_to_string, string_to_int}
use risc_v_rv32i_multi_cycle.Utils.Scan.{
  IsDigit, scan-emit, emit-IsDigit, emit_first-ne-nil, scan-nil, extract-digits,
}

IsDigit-hex : (c : ℕ) → IsDigit 10 c → IsDigit 16 c
IsDigit-hex c (d, h) = (d, ground arith)

All-IsDigit-hex : (s : Bytes) → All (IsDigit 10) s → All (IsDigit 16) s
All-IsDigit-hex [] h = h
All-IsDigit-hex (c ∷ s) (h, hs) = (IsDigit-hex c h, All-IsDigit-hex s hs)

decimal-IsDigit : (n : ℕ) → All (IsDigit 16) (emit 10 10 n [])
decimal-IsDigit n = All-IsDigit-hex _ (emit-IsDigit 10 (omega arith) (omega arith) 10 n [] tt)

scan-decimal : (n : ℕ) → n < 2147483649 → scan 10 0 (emit 10 10 n []) ≡ n
scan-decimal n h = scan-emit 10 (omega arith) (omega arith) 10 n [] (omega arith) ∙ scan-nil 10 n

-- Every `int` is read back from its decimal print, negative ones through the negation that
-- `operator>>` makes in `unsigned long int`.
pub string_to_int-int_to_string : (v : ℤ) → IsInt v → string_to_int (int_to_string v) ≡ some v
unfolding string_to_int int_to_string
string_to_int-int_to_string (pos n) h =
    rw
      (
        extract-digits w64 _ (emit 10 10 n []) (emit_first-ne-nil 10 9 n []) (decimal-IsDigit n),
        scan-decimal n (omega arith),
      )
      (ground arith)
string_to_int-int_to_string (negsuc n) h = rw (scan-decimal (suc n) (omega arith)) (ground arith)
