-- ===== src/Immediate/Formats.antt =====
-- The instruction formats of RISC-V, and the immediate that modules/Immediate.sv finds in an
-- instruction that has been put together from its fields.
use risc_v_rv32i_multi_cycle.Prelude.{
  ℕ, ◌+◌, ◌-◌, ◌*◌, ◌/◌, ◌%◌, ◌^◌, ◌<◌, ◌≡◌, ◌≢◌, ◌⊎◌, ap, ◌∙◌, arith, ltb, Bool, true, false, ◌||◌,
  ◌==◌, if◌then◌else◌,
}
use risc_v_rv32i_multi_cycle.Immediate.{
  field, immediate, imm_src, mux8, i_type, s_type, b_type, u_type, j_type,
}

-- The fields that are no part of an immediate: the registers and `funct3`.
pub record Fields : Type 0 where
  pub rd : ℕ
  pub rs1 : ℕ
  pub rs2 : ℕ
  pub funct3 : ℕ

pub record Fit (f : Fields) : Type 0 where
  pub rd : f.rd < 32
  pub rs1 : f.rs1 < 32
  pub rs2 : f.rs2 < 32
  pub funct3 : f.funct3 < 8

-- The two's complement of a word whose sign is the bit `size - 1`.
abbrev sign_extended : ℕ → ℕ → ℕ
sign_extended size v = if ltb v (2 ^ (size - 1)) then v else v + 2 ^ 32 - 2 ^ size

abbrev i_format : ℕ → Fields → ℕ → ℕ
i_format opcode f imm = imm * 2 ^ 20 + f.rs1 * 2 ^ 15 + f.funct3 * 2 ^ 12 + f.rd * 2 ^ 7 + opcode

abbrev s_format : Fields → ℕ → ℕ
s_format f imm =
    imm / 2 ^ 5 * 2 ^ 25
    + f.rs2 * 2 ^ 20
    + f.rs1 * 2 ^ 15
    + f.funct3 * 2 ^ 12
    + imm % 2 ^ 5 * 2 ^ 7
    + 0b0100011

abbrev b_format : Fields → ℕ → ℕ
b_format f imm =
    imm / 2 ^ 12 % 2 * 2 ^ 31
    + imm / 2 ^ 5 % 2 ^ 6 * 2 ^ 25
    + f.rs2 * 2 ^ 20
    + f.rs1 * 2 ^ 15
    + f.funct3 * 2 ^ 12
    + imm / 2 % 2 ^ 4 * 2 ^ 8
    + imm / 2 ^ 11 % 2 * 2 ^ 7
    + 0b1100011

abbrev j_format : Fields → ℕ → ℕ
j_format f imm =
    imm / 2 ^ 20 % 2 * 2 ^ 31
    + imm / 2 % 2 ^ 10 * 2 ^ 21
    + imm / 2 ^ 11 % 2 * 2 ^ 20
    + imm / 2 ^ 12 % 2 ^ 8 * 2 ^ 12
    + f.rd * 2 ^ 7
    + 0b1101111

-- What the multiplexer puts out, by the opcode.
selected : ℕ → ℕ → ℕ
selected opcode ir =
    mux8 (imm_src opcode (field 14 12 ir)) (i_type ir) (s_type ir) (b_type ir) (u_type ir)
      (j_type ir) (field 24 20 ir) 0 0

immediate-selected : (ir opcode : ℕ) → field 6 0 ir ≡ opcode → immediate ir ≡ selected opcode ir
unfolding selected
immediate-selected ir opcode h = ap (λ o. selected o ir) h

s_type_lem :
    (ir imm : ℕ)
    → imm < 2 ^ 12
    → field 31 25 ir ≡ imm / 2 ^ 5
    → field 11 7 ir ≡ imm % 2 ^ 5
    → s_type ir ≡ sign_extended 12 imm
s_type_lem ir imm h a b = ground arith

i_type_lem : (ir imm : ℕ) → imm < 2 ^ 12 → field 31 20 ir ≡ imm → i_type ir ≡ sign_extended 12 imm
i_type_lem ir imm h a = ground arith

b_type_lem :
    (ir imm : ℕ)
    → imm < 2 ^ 13
    → imm % 2 ≡ 0
    → field 31 25 ir ≡ imm / 2 ^ 12 * 2 ^ 6 + imm / 2 ^ 5 % 2 ^ 6
    → field 11 7 ir ≡ imm / 2 % 2 ^ 4 * 2 + imm / 2 ^ 11 % 2
    → b_type ir ≡ sign_extended 13 imm
b_type_lem ir imm h even a b = ground arith

j_type_lem :
    (ir imm : ℕ)
    → imm < 2 ^ 21
    → imm % 2 ≡ 0
    → field 31 25 ir ≡ imm / 2 ^ 20 * 2 ^ 6 + imm / 2 ^ 5 % 2 ^ 6
    → field 24 20 ir ≡ imm / 2 % 2 ^ 4 * 2 + imm / 2 ^ 11 % 2
    → field 19 12 ir ≡ imm / 2 ^ 12 % 2 ^ 8
    → j_type ir ≡ sign_extended 21 imm
j_type_lem ir imm h even a b c = ground arith

u_type_lem : (ir imm : ℕ) → imm < 2 ^ 20 → field 31 12 ir ≡ imm → u_type ir ≡ imm * 2 ^ 12
u_type_lem ir imm h a = omega arith

-- The kinds of instruction by what their immediate is.
pub data Format : Type 0 where
  calculate shift load jump_register system store branch upper_load upper_add jump : Format

-- The instruction with these fields and this immediate.
abbrev pub assemble : Format → Fields → ℕ → ℕ
assemble calculate f imm = i_format 0b0010011 f imm
assemble shift f imm = i_format 0b0010011 f imm
assemble load f imm = i_format 0b0000011 f imm
assemble jump_register f imm = i_format 0b1100111 f imm
assemble system f imm = i_format 0b1110011 f imm
assemble store f imm = s_format f imm
assemble branch f imm = b_format f imm
assemble upper_load f imm = imm * 2 ^ 12 + f.rd * 2 ^ 7 + 0b0110111
assemble upper_add f imm = imm * 2 ^ 12 + f.rd * 2 ^ 7 + 0b0010111
assemble jump f imm = j_format f imm

-- Whether an immediate can stand in the instruction.
abbrev Allowed : Format → Fields → ℕ → Type 0
Allowed calculate f imm = (imm < 2 ^ 12) × (f.funct3 ≢ 0b001) × (f.funct3 ≢ 0b101)
Allowed shift f imm = (imm < 2 ^ 12) × ((f.funct3 ≡ 0b001) ⊎ (f.funct3 ≡ 0b101))
Allowed load f imm = imm < 2 ^ 12
Allowed jump_register f imm = imm < 2 ^ 12
Allowed system f imm = imm < 2 ^ 12
Allowed store f imm = imm < 2 ^ 12
Allowed branch f imm = (imm < 2 ^ 13) × (imm % 2 ≡ 0)
Allowed upper_load f imm = imm < 2 ^ 20
Allowed upper_add f imm = imm < 2 ^ 20
Allowed jump f imm = (imm < 2 ^ 21) × (imm % 2 ≡ 0)

-- The operand that the instruction means.
abbrev pub meant : Format → ℕ → ℕ
meant shift imm = imm % 32
meant branch imm = sign_extended 13 imm
meant upper_load imm = imm * 2 ^ 12
meant upper_add imm = imm * 2 ^ 12
meant jump imm = sign_extended 21 imm
meant k imm = sign_extended 12 imm

i_format_lem :
    (opcode : ℕ) (f : Fields) (imm : ℕ)
    → Fit f
    → opcode < 128
    → imm < 2 ^ 12
    → i_type (i_format opcode f imm) ≡ sign_extended 12 imm
i_format_lem opcode f imm h ho hi = i_type_lem (i_format opcode f imm) imm hi (omega arith)

-- With the opcode of the calculations, `funct3` tells the shifts from the others.
is_shift : ℕ → Bool
is_shift funct3 = funct3 == 0b001 || funct3 == 0b101

selected_calculation :
    (ir : ℕ) (b : Bool)
    → is_shift (field 14 12 ir) ≡ b
    → selected 0b0010011 ir ≡ (if b then field 24 20 ir else i_type ir)
unfolding selected is_shift
selected_calculation ir true e =
    ap
      (λ c.
        mux8 (if c then 5 else 0) (i_type ir) (s_type ir) (b_type ir) (u_type ir) (j_type ir)
          (field 24 20 ir) 0 0)
      e
selected_calculation ir false e =
    ap
      (λ c.
        mux8 (if c then 5 else 0) (i_type ir) (s_type ir) (b_type ir) (u_type ir) (j_type ir)
          (field 24 20 ir) 0 0)
      e

-- Of an instruction that has been put together from its fields, each within its bits, the unit finds
-- the immediate that the instruction means: sign extended, shifted to the upper bits, or a shift
-- amount, for every format of RISC-V.
pub immediate-assemble :
    (k : Format) (f : Fields) (imm : ℕ)
    → Fit f
    → Allowed k f imm
    → immediate (assemble k f imm) ≡ meant k imm
unfolding selected is_shift
immediate-assemble calculate f imm h (hi, no_sll, no_srl) =
    immediate-selected (i_format 0b0010011 f imm) 0b0010011 (omega arith)
    ∙ selected_calculation (i_format 0b0010011 f imm) false (ap is_shift funct3 ∙ ground arith)
    ∙ i_format_lem 0b0010011 f imm h (omega arith) hi
  where
    funct3 : field 14 12 (i_format 0b0010011 f imm) ≡ f.funct3
    funct3 = omega arith
immediate-assemble shift f imm h (hi, is) =
    immediate-selected (i_format 0b0010011 f imm) 0b0010011 (omega arith)
    ∙ selected_calculation (i_format 0b0010011 f imm) true (ap is_shift funct3 ∙ ground arith)
    ∙ omega arith
  where
    funct3 : field 14 12 (i_format 0b0010011 f imm) ≡ f.funct3
    funct3 = omega arith
immediate-assemble load f imm h hi =
    immediate-selected (i_format 0b0000011 f imm) 0b0000011 (omega arith)
    ∙ i_format_lem 0b0000011 f imm h (omega arith) hi
immediate-assemble jump_register f imm h hi =
    immediate-selected (i_format 0b1100111 f imm) 0b1100111 (omega arith)
    ∙ i_format_lem 0b1100111 f imm h (omega arith) hi
immediate-assemble system f imm h hi =
    immediate-selected (i_format 0b1110011 f imm) 0b1110011 (omega arith)
    ∙ i_format_lem 0b1110011 f imm h (omega arith) hi
immediate-assemble store f imm h hi =
    immediate-selected (s_format f imm) 0b0100011 (omega arith)
    ∙ s_type_lem (s_format f imm) imm hi (omega arith) (omega arith)
immediate-assemble branch f imm h (hi, even) =
    immediate-selected (b_format f imm) 0b1100011 (omega arith)
    ∙ b_type_lem (b_format f imm) imm hi even (omega arith) (omega arith)
immediate-assemble upper_load f imm h hi =
    immediate-selected (assemble upper_load f imm) 0b0110111 (omega arith)
    ∙ u_type_lem (assemble upper_load f imm) imm hi (omega arith)
immediate-assemble upper_add f imm h hi =
    immediate-selected (assemble upper_add f imm) 0b0010111 (omega arith)
    ∙ u_type_lem (assemble upper_add f imm) imm hi (omega arith)
immediate-assemble jump f imm h (hi, even) =
    immediate-selected (j_format f imm) 0b1101111 (omega arith)
    ∙ j_type_lem (j_format f imm) imm hi even (omega arith) (omega arith) (omega arith)
