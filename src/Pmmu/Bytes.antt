-- ===== src/Pmmu/Bytes.antt =====
-- The memory of modules/Memory.sv as RISC-V sees it: bytes, the lowest of a word first; and what its
-- loads and stores are in these terms.
use risc_v_rv32i_multi_cycle.Prelude.{
  ℕ, zero, suc, ◌+◌, ◌-◌, ◌*◌, ◌/◌, ◌%◌, ◌^◌, ◌<◌, ◌≡◌, refl, sym, ap, ◌∙◌, ltb, ◌==◌,
  if◌then◌else◌, arith,
}
use risc_v_rv32i_multi_cycle.Core.{Unpacked}
use risc_v_rv32i_multi_cycle.Pmmu.{
  slice, mux2, mux4, byte_data, halfword_data, read_data, word_addr,
}

-- Every cell is a word.
abbrev pub AreWords : Unpacked → Type 0
AreWords m = (i : ℕ) → m i < 2 ^ 32

abbrev pub byte_in : ℕ → ℕ → ℕ
byte_in w s = w / 256 ^ s % 256

abbrev pub byte_at : Unpacked → ℕ → ℕ
byte_at m a = byte_in (m (a / 4)) (a % 4)

-- The two bytes from an address on, and the four bytes.
abbrev half_at : Unpacked → ℕ → ℕ
half_at m a = byte_at m a + 2 ^ 8 * byte_at m (a + 1)

abbrev word_at : Unpacked → ℕ → ℕ
word_at m a = half_at m a + 2 ^ 16 * half_at m (a + 2)

-- The word with the value of a signed number of so many bits.
abbrev pub extended : ℕ → ℕ → ℕ
extended size v = if ltb v (2 ^ (size - 1)) then v else v + 2 ^ 32 - 2 ^ size

-- `lb`, `lh`, `lbu` and `lhu`; the other codes are `lw`. The low bits of the address that do not fit
-- the size are ignored.
abbrev pub load_value : ℕ → Unpacked → ℕ → ℕ
load_value f m a =
    if f == 0
    then extended 8 (byte_at m a)
    else if f == 1
    then extended 16 (half_at m (a / 2 * 2))
    else if f == 4
    then byte_at m a
    else if f == 5
    then half_at m (a / 2 * 2)
    else word_at m (a / 4 * 4)

-- The byte `s` of the cell `i`.
byte_at_cell : (m : Unpacked) (i s : ℕ) → s < 4 → byte_at m (i * 4 + s) ≡ byte_in (m i) s
byte_at_cell m i s h =
    ap (λ j. byte_in (m j) ((i * 4 + s) % 4)) (omega arith) ∙ ap (byte_in (m i)) (omega arith)

byte_of :
    (s w : ℕ)
    → s < 4
    → mux4 s (slice 7 0 w) (slice 15 8 w) (slice 23 16 w) (slice 31 24 w) ≡ byte_in w s
byte_of zero w h = refl
byte_of (suc zero) w h = omega arith
byte_of (suc (suc zero)) w h = omega arith
byte_of (suc (suc (suc zero))) w h = omega arith
byte_of (suc (suc (suc (suc s)))) w h = absurd (omega arith)

half_of :
    (j w : ℕ)
    → j < 2
    → mux2 j (slice 15 0 w) (slice 31 16 w) ≡ byte_in w (2 * j) + 2 ^ 8 * byte_in w (2 * j + 1)
half_of zero w h = omega arith
half_of (suc zero) w h = omega arith
half_of (suc (suc j)) w h = absurd (omega arith)

word_addr_lem : (a : ℕ) → a < 4096 → word_addr a ≡ a / 4
word_addr_lem a h = omega arith

byte_data-byte_at : (m : Unpacked) (a : ℕ) → a < 4096 → byte_data a (m (word_addr a)) ≡ byte_at m a
byte_data-byte_at m a h =
    ap (λ i. byte_data a (m i)) (word_addr_lem a h)
    ∙ byte_of (slice 1 0 a) (m (a / 4)) (omega arith)
    ∙ ap (byte_in (m (a / 4))) (omega arith)

half_at_cell :
    (m : Unpacked) (i j : ℕ)
    → j < 2
    → half_at m (i * 4 + 2 * j) ≡ byte_in (m i) (2 * j) + 2 ^ 8 * byte_in (m i) (2 * j + 1)
half_at_cell m i j h =
    ap (λ x. x + 2 ^ 8 * byte_at m (i * 4 + 2 * j + 1)) (byte_at_cell m i (2 * j) (omega arith))
    ∙ ap (λ a. byte_in (m i) (2 * j) + 2 ^ 8 * byte_at m a) (omega arith)
    ∙ ap (λ x. byte_in (m i) (2 * j) + 2 ^ 8 * x) (byte_at_cell m i (2 * j + 1) (omega arith))

halfword_data-half_at :
    (m : Unpacked) (a : ℕ) → a < 4096 → halfword_data a (m (word_addr a)) ≡ half_at m (a / 2 * 2)
halfword_data-half_at m a h =
    ap (λ i. halfword_data a (m i)) (word_addr_lem a h)
    ∙ half_of (slice 1 1 a) (m (a / 4)) (omega arith)
    ∙ sym (half_at_cell m (a / 4) (slice 1 1 a) (omega arith))
    ∙ ap (half_at m) (omega arith)

-- The four bytes of a cell make it up.
cell_of_bytes :
    (w : ℕ)
    → w < 2 ^ 32
    → w ≡ (byte_in w 0 + 2 ^ 8 * byte_in w 1) + 2 ^ 16 * (byte_in w 2 + 2 ^ 8 * byte_in w 3)
cell_of_bytes w h = omega arith

word-word_at :
    (m : Unpacked) (a : ℕ) → AreWords m → a < 4096 → m (word_addr a) ≡ word_at m (a / 4 * 4)
word-word_at m a hm h =
    ap m (word_addr_lem a h)
    ∙ cell_of_bytes (m (a / 4)) (hm (a / 4))
    ∙ sym (ap (λ x. x + 2 ^ 16 * (byte_in (m (a / 4)) 2 + 2 ^ 8 * byte_in (m (a / 4)) 3)) low)
    ∙ ap (λ x. half_at m (a / 4 * 4) + 2 ^ 16 * x) (sym (half_at_cell m (a / 4) 1 (omega arith)))
  where
    low : half_at m (a / 4 * 4) ≡ byte_in (m (a / 4)) 0 + 2 ^ 8 * byte_in (m (a / 4)) 1
    low = ap (half_at m) (omega arith) ∙ half_at_cell m (a / 4) 0 (omega arith)

-- What the unit puts out, from the byte and the halfword that its multiplexers choose.
abbrev chosen : ℕ → ℕ → ℕ → ℕ → ℕ
chosen f b h w =
    if f == 0
    then extended 8 b
    else if f == 1
    then extended 16 h
    else if f == 4
    then b
    else if f == 5
    then h
    else w

sign_bit : (b : ℕ) → b < 256 → slice 7 7 b * (2 ^ 24 - 1) * 2 ^ 8 + b ≡ extended 8 b
sign_bit b h = ground arith

sign_bit_half : (b : ℕ) → b < 65536 → slice 15 15 b * (2 ^ 16 - 1) * 2 ^ 16 + b ≡ extended 16 b
sign_bit_half b h = ground arith

zero-add : (x : ℕ) → 0 + x ≡ x
zero-add x = omega arith

read_data-chosen :
    (f a w : ℕ)
    → f < 8
    → byte_data a w < 256
    → halfword_data a w < 65536
    → read_data f a 0 w ≡ chosen f (byte_data a w) (halfword_data a w) w
read_data-chosen zero a w h hb hh = sign_bit (byte_data a w) hb
read_data-chosen (suc zero) a w h hb hh = sign_bit_half (halfword_data a w) hh
read_data-chosen (suc (suc zero)) a w h hb hh = refl
read_data-chosen (suc (suc (suc zero))) a w h hb hh = refl
read_data-chosen (suc (suc (suc (suc zero)))) a w h hb hh = zero-add (byte_data a w)
read_data-chosen (suc (suc (suc (suc (suc zero))))) a w h hb hh = zero-add (halfword_data a w)
read_data-chosen (suc (suc (suc (suc (suc (suc zero)))))) a w h hb hh = refl
read_data-chosen (suc (suc (suc (suc (suc (suc (suc zero))))))) a w h hb hh = refl
read_data-chosen (suc (suc (suc (suc (suc (suc (suc (suc f)))))))) a w h hb hh =
    absurd (omega arith)

pub read_data_lem :
    (f : ℕ) (m : Unpacked) (a : ℕ)
    → f < 8
    → AreWords m
    → a < 4096
    → read_data f a 0 (m (word_addr a)) ≡ load_value f m a
read_data_lem f m a hf hm h =
    let b = byte_data-byte_at m a h in
    let hw = halfword_data-half_at m a h in
    read_data-chosen f a (m (word_addr a)) hf (omega (arith, b)) (omega (arith, hw))
    ∙ ap (λ x. chosen f x (halfword_data a (m (word_addr a))) (m (word_addr a))) b
    ∙ ap (λ x. chosen f (byte_at m a) x (m (word_addr a))) hw
    ∙ ap (chosen f (byte_at m a) (half_at m (a / 2 * 2))) (word-word_at m a hm h)
