-- ===== src/Utils/BinaryBack.antt =====
-- What `bin_string_to_int` makes of the texts of `int_to_bin` (simulation/ranger_console/utils.cpp).
use native.Mathlib.Nat.{div-div-eq-div-mul, div-add-mod', pow-suc}
use risc_v_rv32i_multi_cycle.Prelude.{
  ℕ, zero, suc, ◌+◌, ◌-◌, ◌*◌, ◌/◌, ◌%◌, ◌^◌, ◌<◌, ◌≡◌, refl, ap, ◌∙◌, sym, true, false, ◌∷◌, ltb,
  ltb_ℤ, if◌then◌else◌, arith, Bytes, ℤ, pos, negsuc, w32, IsInt,
}
use risc_v_rv32i_multi_cycle.Utils.{
  bits, int_to_bin, digit, scan, value, out_of_range, signed_digits, signed_number,
  bin_string_to_int,
}
use risc_v_rv32i_multi_cycle.Utils.Scan.{scan_step, scan-nil}

-- The bits above a bit, and the bit.
above : (n v : ℕ) → v / 2 ^ suc n * 2 + v / 2 ^ n % 2 ≡ v / 2 ^ n
above n v =
    ap (λ q. q * 2 + v / 2 ^ n % 2)
      (ap (λ p. v / p) (pow-suc 2 n) ∙ sym (div-div-eq-div-mul v (2 ^ n) 2))
    ∙ div-add-mod' (v / 2 ^ n) 2

bit_digit : (d : ℕ) → d < 2 → b'0' + d ≡ digit d
bit_digit d h = ground arith

-- With the bits above them read, the last bits of a number give the number.
scan-bits : (n v : ℕ) → scan 2 (v / 2 ^ n) (bits n v) ≡ v
unfolding bits
scan-bits zero v = scan-nil 2 (v / 2 ^ 0) ∙ one
  where
    one : v / 2 ^ 0 ≡ v
    one = omega arith
scan-bits (suc n) v =
    ap (λ c. scan 2 (v / 2 ^ suc n) (c ∷ bits n v)) (bit_digit (v / 2 ^ n % 2) (omega arith))
    ∙ scan_step 2 (omega arith) (omega arith) (v / 2 ^ suc n) (v / 2 ^ n % 2) (bits n v)
        (omega arith)
    ∙ ap (λ q. scan 2 q (bits n v)) (above n v)
    ∙ scan-bits n v

whole : (v : ℕ) → v < w32 → scan 2 0 (bits 32 v) ≡ v
whole v h = ap (λ q. scan 2 q (bits 32 v)) none_above ∙ scan-bits 32 v
  where
    none_above : 0 ≡ v / 2 ^ 32
    none_above = omega arith

-- A text that starts with a binary digit and reads as a number.
starts :
    (d : ℕ) (s : Bytes) (v : ℕ)
    → d < 2
    → scan 2 0 ((b'0' + d) ∷ s) ≡ v
    → bin_string_to_int ((b'0' + d) ∷ s)
      ≡ (if ltb v 2147483648 then value (pos v) else out_of_range)
unfolding bin_string_to_int signed_number signed_digits
starts zero s v h e = rw e refl
starts (suc zero) s v h e = rw e refl
starts (suc (suc d)) s v h e = absurd (omega arith)

-- The 32 characters that `int_to_bin` writes for an `int`, whatever the header, are read back as that
-- `int` where it is not negative; for a negative one they spell a number out of the range of `int`, and
-- `std::stoi` throws.
pub bin_string_to_int-int_to_bin :
    (v : ℤ) (header : Bytes)
    → IsInt v
    → bin_string_to_int (int_to_bin v header) ≡ (if ltb_ℤ v (pos 0) then out_of_range else value v)
unfolding int_to_bin bits
bin_string_to_int-int_to_bin (pos n) header h =
    ap (λ w. bin_string_to_int (bits 32 w)) small
    ∙ starts (n / 2 ^ 31 % 2) (bits 31 n) n (omega arith) (whole n (omega arith))
    ∙ ap (λ b. if b then value (pos n) else out_of_range) positive
    ∙ ap (λ b. if b then out_of_range else value (pos n)) (sym not_negative)
  where
    not_negative : ltb_ℤ (pos n) (pos 0) ≡ false
    not_negative = ground arith

    small : n % w32 ≡ n
    small = omega arith

    positive : ltb n 2147483648 ≡ true
    positive = ground arith
bin_string_to_int-int_to_bin (negsuc n) header h =
    starts (w / 2 ^ 31 % 2) (bits 31 w) w (omega arith) (whole w (omega arith))
    ∙ ap (λ b. if b then value (pos w) else out_of_range) too_great
    ∙ ap (λ b. if b then out_of_range else value (negsuc n)) (sym negative)
  where
    negative : ltb_ℤ (negsuc n) (pos 0) ≡ true
    negative = ground arith

    w : ℕ
    w = w32 - 1 - n % w32

    too_great : ltb w 2147483648 ≡ false
    too_great = ground arith
