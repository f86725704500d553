-- ===== src/Console/Labels/Names.antt =====
-- The names that the console prints for the states of the processor, beside the enumerations of
-- definitions/TypeEnums.sv that Verilator makes public.
use risc_v_rv32i_multi_cycle.Prelude.{
  ℕ, ◌<◌, ◌≡◌, refl, Option, some, ◌++◌, [], ◌∷◌, get_elem?, Bytes, codes, arith, ◌%◌, ◌/◌, ◌==◌,
  if◌then◌else◌, Bool, true, false, none, eq_text, eq_text→eq, ap, all_below_lem,
}
use risc_v_rv32i_multi_cycle.TypeEnums.{
  AluOp, add, sub, xor, or, and, sll, srl, sra, slt, sltu, encode, identifier,
}
use risc_v_rv32i_multi_cycle.Console.Labels.{alu_op_names, alu_flags_names, find_case}

-- For every ALU operation the console prints its identifier in the design, less the `Op` at its end.
find_case-encode :
    (op : AluOp)
    → (name : Bytes) × (find_case (encode op) alu_op_names ≡ some name)
      × (identifier op ≡ name ++ codes "Op")
find_case-encode add = (_, refl, refl)
find_case-encode sub = (_, refl, refl)
find_case-encode xor = (_, refl, refl)
find_case-encode or = (_, refl, refl)
find_case-encode and = (_, refl, refl)
find_case-encode sll = (_, refl, refl)
find_case-encode srl = (_, refl, refl)
find_case-encode sra = (_, refl, refl)
find_case-encode slt = (_, refl, refl)
find_case-encode sltu = (_, refl, refl)

-- The letter of a flag, or a dash.
abbrev pub flag : ℕ → ℕ → ℕ
flag letter b = if b == 1 then letter else b'-'

abbrev pub flags : ℕ → Bytes
flags v =
    flag b'V' (v / 8 % 2) ∷ flag b'N' (v / 4 % 2) ∷ flag b'C' (v / 2 % 2) ∷ flag b'Z' (v % 2) ∷ []

same : Option Bytes → Bytes → Bool
same none t = false
same (some s) t = eq_text s t

same→≡ : (o : Option Bytes) (t : Bytes) → same o t ≡ true → o ≡ some t
unfolding same
same→≡ none t h = absurd (ground arith)
same→≡ (some s) t h = ap some (eq_text→eq s t h)

-- The flags of the ALU are printed as the letters V, N, C and Z of the bits 3 to 0 that are set, with
-- a dash for each bit that is not.
alu_flags_names_lem : (v : ℕ) → v < 16 → get_elem? alu_flags_names v ≡ some (flags v)
unfolding same
alu_flags_names_lem v h =
    same→≡ (get_elem? alu_flags_names v) (flags v)
      (all_below_lem 16 (λ i. same (get_elem? alu_flags_names i) (flags i)) refl v h)
