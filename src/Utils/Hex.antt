-- ===== src/Utils/Hex.antt =====
-- `int_to_hex` and `hex_string_to_int` (simulation/ranger_console/utils.cpp).
use native.Mathlib.Nat.{pow-suc}
use risc_v_rv32i_multi_cycle.Prelude.{
  ℕ, zero, suc, ◌+◌, ◌-◌, ◌*◌, ◌/◌, ◌%◌, ◌^◌, ◌≤◌, ◌<◌, ◌≡◌, ◌≢◌, refl, false, some, [], ◌∷◌, ◌++◌,
  arith, ◌==◌, length, replicate, All, All-append, Bytes, inl, inr, Bool-cases, ==_iff, ◌∙◌, ap,
  sym, w32, signed32, pos,
}
use risc_v_rv32i_multi_cycle.Utils.{digit, emit, fill_left, int_to_hex, hex_string_to_int}
use risc_v_rv32i_multi_cycle.Utils.Scan.{
  IsDigit, scan-emit, emit-IsDigit, emit_first-ne-nil, scan-nil, scan_step, digit-IsDigit,
  scan-replicate, replicate-IsDigit, extract-digits, skip_0x-digits,
}

length-emit : (base fuel v : ℕ) (out : Bytes) → length (emit base fuel v out) ≤ fuel + length out
unfolding emit
length-emit base zero v out = omega arith
length-emit base (suc fuel) v out =
    ground (arith, length-emit base fuel (v / base) (digit (v % base) ∷ out))

hex_text : ℕ → Bytes
hex_text v = fill_left 8 (emit 16 8 v [])

hex_text-IsDigit : (v : ℕ) → All (IsDigit 16) (hex_text v)
unfolding hex_text
hex_text-IsDigit v =
    All-append (IsDigit 16) (replicate (8 - length (emit 16 8 v [])) b'0') (emit 16 8 v [])
      (replicate-IsDigit 16 (omega arith) (omega arith) (8 - length (emit 16 8 v [])))
      (emit-IsDigit 16 (omega arith) (omega arith) 8 v [] tt)

append-ne-nil : (xs ys : Bytes) → ys ≢ [] → xs ++ ys ≢ []
append-ne-nil [] ys h = h
append-ne-nil (x ∷ xs) ys h = λ e. cc e

hex_text-ne-nil : (v : ℕ) → hex_text v ≢ []
unfolding hex_text
hex_text-ne-nil v =
    append-ne-nil (replicate (8 - length (emit 16 8 v [])) b'0') (emit 16 8 v [])
      (emit_first-ne-nil 16 7 v [])

-- An `unsigned int` printed in hexadecimal is read back, as the `int` with its bit pattern.
pub hex_string_to_int-int_to_hex :
    (v : ℕ) → v < w32 → hex_string_to_int (int_to_hex v []) ≡ some (signed32 v)
unfolding hex_string_to_int int_to_hex hex_text
hex_string_to_int-int_to_hex v h =
    rw
      (
        extract-digits w32 _ (hex_text v) (hex_text-ne-nil v) (hex_text-IsDigit v),
        skip_0x-digits (hex_text v) (hex_text-IsDigit v),
        scan-replicate 16 (omega arith) (omega arith) (8 - length (emit 16 8 v []))
            (emit 16 8 v []),
        scan-emit 16 (omega arith) (omega arith) 8 v [] h,
      )
      (ground (arith, scan-nil 16 v))

-- The last `n` hexadecimal digits of a number, by position, in front of `out`.
abbrev pub nibbles : ℕ → ℕ → Bytes → Bytes
nibbles zero v out = out
nibbles (suc n) v out = nibbles n (v / 16) (digit (v % 16) ∷ out)

replicate-cons : (n a : ℕ) (out : Bytes) → replicate n a ++ a ∷ out ≡ a ∷ (replicate n a ++ out)
replicate-cons zero a out = refl
replicate-cons (suc n) a out = ap (λ t. a ∷ t) (replicate-cons n a out)

nibbles-zero : (n : ℕ) (out : Bytes) → nibbles n 0 out ≡ replicate n b'0' ++ out
nibbles-zero zero out = refl
nibbles-zero (suc n) out = nibbles-zero n (b'0' ∷ out) ∙ replicate-cons n b'0' out

abbrev padded : ℕ → ℕ → Bytes → Bytes
padded n v out = replicate (n + length out - length (emit 16 n v out)) b'0' ++ emit 16 n v out

padded_last : (n v : ℕ) (out : Bytes) → v / 16 ≡ 0 → padded (suc n) v out ≡ nibbles (suc n) v out
unfolding emit
padded_last n v out e =
    let fill : suc n + length out - suc (length out) ≡ n = omega arith in
    rw (e, fill) (sym (nibbles-zero n (digit (v % 16) ∷ out)))

padded_more :
    (n v : ℕ) (out : Bytes)
    → (v / 16 == 0) ≡ false
    → padded (suc n) v out ≡ padded n (v / 16) (digit (v % 16) ∷ out)
unfolding emit
padded_more n v out e =
    let L : ℕ = length (emit 16 n (v / 16) (digit (v % 16) ∷ out)) in
    let fill : suc n + length out - L ≡ n + suc (length out) - L = omega arith in rw (e, fill)

padded-nibbles :
    (n v : ℕ) (out : Bytes) → v < 16 ^ suc n → padded (suc n) v out ≡ nibbles (suc n) v out
padded-nibbles zero v out h = padded_last zero v out (omega (arith, pow-suc 16 0))
padded-nibbles (suc n) v out h = elim (Bool-cases (v / 16 == 0)) [
  | inl e ↦ padded_last (suc n) v out ((==_iff _ 0).0 e)
  | inr e ↦
      padded_more (suc n) v out e
      ∙ padded-nibbles n (v / 16) (digit (v % 16) ∷ out) (omega (arith, pow-suc 16 (suc n)))
]

-- `int_to_hex` writes the header and then the eight hexadecimal digits of the value, by position.
pub int_to_hex-nibbles :
    (v : ℕ) (header : Bytes) → v < w32 → int_to_hex v header ≡ header ++ nibbles 8 v []
unfolding int_to_hex
int_to_hex-nibbles v header h =
    let p : fill_left 8 (emit 16 8 v []) ≡ nibbles 8 v [] = padded-nibbles 7 v [] h in rw p

-- The two digits that `show_memory` takes from a printed word are read back as their byte.
pub hex_string_to_int-pair :
    (a b : ℕ)
    → a < 16
    → b < 16
    → hex_string_to_int (digit a ∷ digit b ∷ []) ≡ some (pos (a * 16 + b))
unfolding hex_string_to_int
hex_string_to_int-pair a b ha hb =
    let whole : All (IsDigit 16) (digit a ∷ digit b ∷ []) = (
      digit-IsDigit 16 (omega arith) (omega arith) a ha,
      (digit-IsDigit 16 (omega arith) (omega arith) b hb, tt),
    ) in
    rw
      (
        extract-digits w32 _ (digit a ∷ digit b ∷ []) (λ n. cc n) whole,
        skip_0x-digits (digit a ∷ digit b ∷ []) whole,
        scan_step 16 (omega arith) (omega arith) 0 a _ ha,
        scan_step 16 (omega arith) (omega arith) _ b [] hb,
        scan-nil 16 ((0 * 16 + a) * 16 + b),
      )
      (ground arith)
