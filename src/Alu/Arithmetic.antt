-- ===== src/Alu/Arithmetic.antt =====
-- The operations of modules/ALU.sv at the processor's width, as arithmetic on numbers.
use Prim.Native.Nat.{bit_xor}
use native.Mathlib.Nat.{pow-suc, div-div-eq-div-mul, div-le_self}
use risc_v_rv32i_multi_cycle.Prelude.{
  lt→ltb, le→ltb_false, ◌≤◌, split_on, ap, sym, ◌∙◌, subst, ℕ, zero, suc, ◌+◌, ◌-◌, ◌*◌, ◌/◌, ◌%◌,
  ◌^◌, ◌<◌, ◌≡◌, refl, Bool, true, false, not, ltb, ◌==◌, if◌then◌else◌, arith, w32, ℤ, pos, negsuc,
  signed32, ltb_ℤ, ◌+ℤ◌, ◌-ℤ◌, to_u32,
}
use risc_v_rv32i_multi_cycle.TypeEnums.{add, sub, slt, sra}
use risc_v_rv32i_multi_cycle.Alu.{compute, flags_of, bit, top_bit}

-- SltOp compares the signed numbers.
compute-slt :
    (a b : ℕ)
    → a < 2 ^ 32
    → b < 2 ^ 32
    → (compute 32 slt a b).o_res ≡ bit (ltb_ℤ (signed32 a) (signed32 b))
compute-slt a b ha hb = ground arith

-- The sum and the difference of two words are those of the signed numbers, wrapped.
compute-add :
    (a b : ℕ)
    → a < 2 ^ 32
    → b < 2 ^ 32
    → (compute 32 add a b).o_res ≡ to_u32 (signed32 a +ℤ signed32 b)
compute-add a b ha hb = ground arith

compute-sub :
    (a b : ℕ)
    → a < 2 ^ 32
    → b < 2 ^ 32
    → (compute 32 sub a b).o_res ≡ to_u32 (signed32 a -ℤ signed32 b)
compute-sub a b ha hb = ground arith

-- The xor of two bits.
bit_xor_lem : (x y : Bool) → bit_xor (bit x) (bit y) ≡ bit (if x then not y else y)
bit_xor_lem true true = refl
bit_xor_lem true false = refl
bit_xor_lem false true = refl
bit_xor_lem false false = refl

-- The difference of two words is no 32-bit signed number.
abbrev pub overflows : ℤ → Bool
overflows (pos n) = not (ltb n (2 ^ 31))
overflows (negsuc n) = not (ltb n (2 ^ 31))

-- The carries of a subtraction, as bits.
borrow_v :
    (a b : ℕ)
    → a < 2 ^ 32
    → b < 2 ^ 32
    → (if ltb (a % 2 ^ 31) (b % 2 ^ 31) then not (ltb a b) else ltb a b)
      ≡ overflows (signed32 a -ℤ signed32 b)
borrow_v a b ha hb = ground arith

sign_v :
    (a b : ℕ)
    → a < 2 ^ 32
    → b < 2 ^ 32
    → (top_bit 32 (compute 32 sub a b).o_res == bit (overflows (signed32 a -ℤ signed32 b)))
      ≡ not (ltb_ℤ (signed32 a) (signed32 b))
sign_v a b ha hb = ground arith

zero_z : (a b : ℕ) → a < 2 ^ 32 → b < 2 ^ 32 → ((compute 32 sub a b).o_res == 0) ≡ (a == b)
zero_z a b ha hb = ground arith

-- The flags in the number that holds them.
in_flags :
    (v n c z : ℕ)
    → v < 2
    → n < 2
    → c < 2
    → z < 2
    → let f = v * 8 + n * 4 + c * 2 + z in
      (f % 2 ≡ z) × (f / 2 % 2 ≡ c) × (f / 4 % 2 ≡ n) × (f / 8 % 2 ≡ v)
in_flags v n c z hv hn hc hz = (omega arith, omega arith, omega arith, omega arith)

bit_below : (b : Bool) → bit b < 2
bit_below true = omega arith
bit_below false = omega arith

-- After a subtraction of words, Z says that they are equal, C that the first is below the second as an
-- unsigned number, V that the difference of the signed numbers is none of 32 bits, and N differs from V
-- exactly if the first is below the second as a signed number.
pub flags_of-sub :
    (a b : ℕ)
    → a < 2 ^ 32
    → b < 2 ^ 32
    → let f = flags_of 32 (compute 32 sub a b) in
      (f % 2 ≡ bit (a == b))
      × (f / 2 % 2 ≡ bit (ltb a b))
      × (f / 8 % 2 ≡ bit (overflows (signed32 a -ℤ signed32 b)))
      × ((f / 4 % 2 == f / 8 % 2) ≡ not (ltb_ℤ (signed32 a) (signed32 b)))
flags_of-sub a b ha hb =
    let (z, c, n, v) =
      in_flags (bit_xor (bit low) (bit (ltb a b))) (top_bit 32 r) (bit (ltb a b)) (bit (r == 0))
        (subst (λ x. x < 2) (sym is_v) (bit_below _)) (omega arith) (bit_below (ltb a b))
        (bit_below (r == 0)) in
    (
      z ∙ ap bit (zero_z a b ha hb),
      c,
      v ∙ is_v,
      ap (λ x. x == flags_of 32 (compute 32 sub a b) / 8 % 2) n
          ∙ ap (λ x. top_bit 32 r == x) (v ∙ is_v)
          ∙ sign_v a b ha hb,
    )
  where
    low : Bool
    low = ltb (a % 2 ^ 31) (b % 2 ^ 31)

    r : ℕ
    r = (compute 32 sub a b).o_res

    is_v : bit_xor (bit low) (bit (ltb a b)) ≡ bit (overflows (signed32 a -ℤ signed32 b))
    is_v = bit_xor_lem low (ltb a b) ∙ ap bit (borrow_v a b ha hb)

-- Division by a power of two, of two numbers that are complements: so are the quotients.
halves : (b k x y : ℕ) → x + y + 1 ≡ 2 ^ (k + b) → x / 2 ^ b + y / 2 ^ b + 1 ≡ 2 ^ k
halves zero k x y h = omega (arith, h ∙ ap (λ j. 2 ^ j) same)
  where
    same : k + 0 ≡ k
    same = omega arith
halves (suc b) k x y h =
    omega (arith, halves b (suc k) x y (h ∙ ap (λ j. 2 ^ j) next), pow-suc 2 k, half x, half y)
  where
    next : k + suc b ≡ suc k + b
    next = omega arith

    half : (z : ℕ) → z / 2 ^ suc b ≡ z / 2 ^ b / 2
    half z = ap (λ d. z / d) (pow-suc 2 b) ∙ sym (div-div-eq-div-mul z (2 ^ b) 2)

-- A signed number divided by a power of two, rounded down.
abbrev pub div_floor : ℤ → ℕ → ℤ
div_floor (pos n) d = pos (n / d)
div_floor (negsuc n) d = negsuc (n / d)

sra-pos :
    (a b : ℕ) → a < 2 ^ 31 → (compute 32 sra a b).o_res ≡ to_u32 (div_floor (signed32 a) (2 ^ b))
sra-pos a b h =
    ap (λ x. x / 2 ^ b % 2 ^ 32) extended ∙ ap (λ z. to_u32 (div_floor z (2 ^ b))) (sym is_pos)
  where
    extended : top_bit 32 a * (2 ^ 32 - 1) * 2 ^ 32 + a ≡ a
    extended = omega arith

    is_pos : signed32 a ≡ pos a
    is_pos = ap (λ c. if c then pos a else negsuc (w32 - a - 1)) (lt→ltb a (2 ^ 31) h)

pow_32 : (j : ℕ) → 2 ^ (j + 32) ≡ 2 ^ 32 * 2 ^ j
pow_32 zero = refl
pow_32 (suc j) = omega (arith, ap (λ k. 2 ^ k) next, pow-suc 2 (j + 32), pow-suc 2 j, pow_32 j)
  where
    next : suc j + 32 ≡ suc (j + 32)
    next = omega arith

pow_pos : (j : ℕ) → 0 < 2 ^ j
pow_pos zero = omega arith
pow_pos (suc j) = omega (arith, pow-suc 2 j, pow_pos j)

sra-neg :
    (a b : ℕ)
    → 2 ^ 31 ≤ a
    → a < 2 ^ 32
    → b < 32
    → (compute 32 sra a b).o_res ≡ to_u32 (div_floor (signed32 a) (2 ^ b))
sra-neg a b h ha hb =
    ap (λ x. x / 2 ^ b % 2 ^ 32) extended
    ∙ omega (
      arith,
      halves b (32 - b + 32) x n sum,
      pow_32 (32 - b),
      pow_pos (32 - b),
      div-le_self n (2 ^ b),
    )
    ∙ ap (λ z. to_u32 (div_floor z (2 ^ b))) (sym is_neg)
  where
    x : ℕ
    x = (2 ^ 32 - 1) * 2 ^ 32 + a

    n : ℕ
    n = w32 - a - 1

    extended : top_bit 32 a * (2 ^ 32 - 1) * 2 ^ 32 + a ≡ x
    extended = omega arith

    bits : 32 - b + 32 + b ≡ 64
    bits = omega arith

    sum : x + n + 1 ≡ 2 ^ (32 - b + 32 + b)
    sum = omega (arith, ap (λ k. 2 ^ k) bits)

    is_neg : signed32 a ≡ negsuc n
    is_neg = ap (λ c. if c then pos a else negsuc n) (le→ltb_false a (2 ^ 31) h)

-- An arithmetic shift to the right by less than 32 divides the signed number by the power of two and
-- rounds down.
pub compute-sra :
    (a b : ℕ)
    → a < 2 ^ 32
    → b < 32
    → (compute 32 sra a b).o_res ≡ to_u32 (div_floor (signed32 a) (2 ^ b))
compute-sra a b ha hb =
    split_on (ltb a (2 ^ 31)) (λ e. sra-pos a b (ground arith))
      (λ e. sra-neg a b (ground arith) ha hb)
