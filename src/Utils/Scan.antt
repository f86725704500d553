-- ===== src/Utils/Scan.antt =====
-- Numbers written by `emit` and read back by `scan`, in any base up to sixteen
-- (simulation/ranger_console/utils.cpp: the streams behind `int_to_hex`, `int_to_string`,
-- `string_to_int` and `hex_string_to_int`).
use native.Mathlib.Nat.{div-lt_iff_lt-mul, div-add-mod', mod-lt, pow-suc, pow-zero}
use risc_v_rv32i_multi_cycle.Prelude.{
  ℕ, zero, suc, ◌+◌, ◌*◌, ◌/◌, ◌%◌, ◌^◌, ◌≤◌, ◌<◌, ◌≡◌, ◌≢◌, refl, true, false, some, [], ◌∷◌, ◌++◌,
  arith, ◌==◌, replicate, All, Bytes, inl, inr, Bool-cases, ==_iff, ◌∙◌, ap,
}
use risc_v_rv32i_multi_cycle.Utils.{
  is_space, digit, digit_value, emit, scan, skip_0x, clamp, extract,
}

-- `c` is a digit of the base.
abbrev pub IsDigit : ℕ → ℕ → Type 0
IsDigit base c = (d : ℕ) × (digit_value base c ≡ some d)

pub digit_value-digit : (base d : ℕ) → base ≤ 16 → d < base → digit_value base (digit d) ≡ some d
digit_value-digit base d h k = ground arith

emit-ne-nil : (base fuel v : ℕ) (out : Bytes) → out ≢ [] → emit base fuel v out ≢ []
unfolding emit
emit-ne-nil base zero v out h = h
emit-ne-nil base (suc fuel) v out h = elim (Bool-cases (v / base == 0)) [
  | inl e ↦ rw e (λ n. cc n)
  | inr e ↦ rw e (emit-ne-nil base fuel (v / base) _ (λ n. cc n))
]

-- A number has a first digit.
pub emit_first-ne-nil : (base fuel v : ℕ) (out : Bytes) → emit base (suc fuel) v out ≢ []
unfolding emit
emit_first-ne-nil base fuel v out = elim (Bool-cases (v / base == 0)) [
  | inl e ↦ rw e (λ n. cc n)
  | inr e ↦ rw e (emit-ne-nil base fuel (v / base) _ (λ n. cc n))
]

pub scan-nil : (base acc : ℕ) → scan base acc [] ≡ acc
unfolding scan
scan-nil base acc = refl

module _ (base : ℕ) (two : 1 < base) (sixteen : base ≤ 16) where
  pub digit-IsDigit : (d : ℕ) → d < base → IsDigit base (digit d)
  digit-IsDigit d h = (d, digit_value-digit base d sixteen h)

  pub scan_step :
      (acc d : ℕ) (s : Bytes)
      → d < base
      → scan base acc (digit d ∷ s) ≡ scan base (acc * base + d) s
  unfolding scan
  scan_step acc d s h = rw (digit_value-digit base d sixteen h, scan)

  last_digit : (v : ℕ) → v % base < base
  last_digit v = mod-lt v (omega arith)

  fewer_digits : (f v : ℕ) → v < base ^ suc f → v / base < base ^ f
  fewer_digits f v h = (div-lt_iff_lt-mul (omega arith)).1 (rw pow-suc at h)

  sole_digit : (v : ℕ) → (v / base == 0) ≡ true → 0 * base + v % base ≡ v
  sole_digit v e =
      let z : v / base ≡ 0 = (==_iff _ 0).0 e in
      omega (arith, div-add-mod' v base, ap (λ n. n * base) z)

  pub scan-emit :
      (fuel v : ℕ) (out : Bytes)
      → v < base ^ fuel
      → scan base 0 (emit base fuel v out) ≡ scan base v out
  unfolding emit
  scan-emit zero zero out h = refl
  scan-emit zero (suc v) out h = absurd (omega (arith, pow-zero base))
  scan-emit (suc fuel) v out h = elim (Bool-cases (v / base == 0)) [
    | inl e ↦
        rw e
          (scan_step 0 (v % base) out (last_digit v) ∙ ap (λ n. scan base n out) (sole_digit v e))
    | inr e ↦ rw e (
        scan-emit fuel (v / base) _ (fewer_digits fuel v h)
        ∙ scan_step (v / base) (v % base) out (last_digit v)
        ∙ ap (λ n. scan base n out) (div-add-mod' v base))
  ]

  pub emit-IsDigit :
      (fuel v : ℕ) (out : Bytes)
      → All (IsDigit base) out
      → All (IsDigit base) (emit base fuel v out)
  unfolding emit
  emit-IsDigit zero v out h = h
  emit-IsDigit (suc fuel) v out h = elim (Bool-cases (v / base == 0)) [
    | inl e ↦ rw e (digit-IsDigit _ (last_digit v), h)
    | inr e ↦ rw e (emit-IsDigit fuel (v / base) _ (digit-IsDigit _ (last_digit v), h))
  ]

  -- Zeros in front change nothing.
  pub scan-replicate : (n : ℕ) (s : Bytes) → scan base 0 (replicate n b'0' ++ s) ≡ scan base 0 s
  scan-replicate zero s = refl
  scan-replicate (suc n) s =
      scan_step 0 0 (replicate n b'0' ++ s) (omega arith)
      ∙ ap (λ k. scan base k (replicate n b'0' ++ s)) (omega arith)
      ∙ scan-replicate n s

  pub replicate-IsDigit : (n : ℕ) → All (IsDigit base) (replicate n b'0')
  replicate-IsDigit zero = tt
  replicate-IsDigit (suc n) = (digit-IsDigit 0 (omega arith), replicate-IsDigit n)

-- A digit is no white space, no sign and no `x`.
digit_char :
    (c : ℕ)
    → IsDigit 16 c
    → (is_space c ≡ false)
      × ((c == b'-') ≡ false)
      × ((c == b'+') ≡ false)
      × ((c == b'x') ≡ false)
      × ((c == b'X') ≡ false)
digit_char c (d, h) = ground arith

-- A text of digits is read whole, with no sign and no prefix.
pub extract-digits :
    (modulus : ℕ) (number : Bytes → ℕ) (s : Bytes)
    → s ≢ []
    → All (IsDigit 16) s
    → extract modulus number s ≡ some (clamp modulus (number s))
unfolding extract
extract-digits modulus number [] ne h = absurd (ne refl)
extract-digits modulus number (c ∷ s) ne (h, hs) = ground (arith, digit_char c h)

pub skip_0x-digits : (s : Bytes) → All (IsDigit 16) s → skip_0x s ≡ s
skip_0x-digits [] h = refl
skip_0x-digits (z ∷ []) h = refl
skip_0x-digits (z ∷ x ∷ s) (hz, (hx, hs)) = ground (arith, digit_char x hx)
