-- ===== src/Immediate.antt =====
-- The immediate operand of an instruction, modules/Immediate.sv with Mux8.sv, and the test bench
-- simulation/immediate that drives it.
use risc_v_rv32i_multi_cycle.Prelude.{
  ℕ, zero, suc, ◌+◌, ◌-◌, ◌*◌, ◌/◌, ◌%◌, ◌^◌, Bool, ◌||◌, ◌==◌, if◌then◌else◌, List, [], ◌∷◌, Bytes,
  codes,
}
use risc_v_rv32i_multi_cycle.TestBench.{Move, drive}
pub mod Formats
pub mod Waveform

-- `ir[hi:lo]`
abbrev pub field : ℕ → ℕ → ℕ → ℕ
field hi lo ir = ir / 2 ^ lo % 2 ^ (hi + 1 - lo)

-- `{a, b}`, where `b` has `size` bits
abbrev pub beside : ℕ → ℕ → ℕ → ℕ
beside a size b = a * 2 ^ size + b

-- `{n{sign}}`
abbrev repeated : ℕ → ℕ → ℕ
repeated n sign = sign * (2 ^ n - 1)

-- The unknown value of `data6_i` is never selected.
abbrev pub mux8 : ℕ → ℕ → ℕ → ℕ → ℕ → ℕ → ℕ → ℕ → ℕ → ℕ
mux8 select data0 data1 data2 data3 data4 data5 data6 data7 =
    if select == 0
    then data0
    else if select == 1
    then data1
    else if select == 2
    then data2
    else if select == 3
    then data3
    else if select == 4
    then data4
    else if select == 5
    then data5
    else if select == 6
    then data6
    else if select == 7
    then data7
    else 0

-- `imm_src`, from the opcode and `funct3`: the opcodes of definitions/definitions.sv
abbrev pub imm_src : ℕ → ℕ → ℕ
imm_src opcode funct3 =
    if opcode == 0b0010011
    then (if funct3 == 0b001 || funct3 == 0b101 then 5 else 0)
    else if opcode == 0b0000011 || opcode == 0b1100111 || opcode == 0b1110011
    then 0
    else if opcode == 0b0100011
    then 1
    else if opcode == 0b1100011
    then 2
    else if opcode == 0b0110111 || opcode == 0b0010111
    then 3
    else if opcode == 0b1101111
    then 4
    else 7

-- The inputs of the multiplexer, from the sign and the other fields.
abbrev pub i_type : ℕ → ℕ
i_type ir =
    beside (beside (beside (repeated 21 (field 31 31 ir)) 6 (field 30 25 ir)) 4 (field 24 21 ir)) 1
      (field 20 20 ir)

abbrev pub s_type : ℕ → ℕ
s_type ir =
    beside (beside (beside (repeated 21 (field 31 31 ir)) 6 (field 30 25 ir)) 4 (field 11 8 ir)) 1
      (field 7 7 ir)

abbrev pub b_type : ℕ → ℕ
b_type ir =
    beside
      (beside (beside (beside (repeated 20 (field 31 31 ir)) 1 (field 7 7 ir)) 6 (field 30 25 ir)) 4
        (field 11 8 ir))
      1 0

abbrev pub u_type : ℕ → ℕ
u_type ir = beside (beside (beside (field 31 31 ir) 11 (field 30 20 ir)) 8 (field 19 12 ir)) 12 0

abbrev pub j_type : ℕ → ℕ
j_type ir =
    beside
      (beside
        (beside
          (beside (beside (repeated 12 (field 31 31 ir)) 8 (field 19 12 ir)) 1 (field 20 20 ir)) 6
          (field 30 25 ir))
        4 (field 24 21 ir))
      1 0

-- `imm_o`
abbrev pub immediate : ℕ → ℕ
immediate ir =
    mux8 (imm_src (field 6 0 ir) (field 14 12 ir)) (i_type ir) (s_type ir) (b_type ir) (u_type ir)
      (j_type ir) (field 24 20 ir) 0 0

-- The ports.
pub record Ports : Type 0 where
  pub ir_i : ℕ
  pub imm_o : ℕ

abbrev at_time : ℕ → ℕ → Move Ports
at_time at ir = record { at = at; make = λ t. record t { ir_i = ir } }

abbrev pub instructions : List (Move Ports)
instructions =
    at_time 10 0x00000013
    ∷ at_time 20 0x00301013
    ∷ at_time 30 0x00512423
    ∷ at_time 40 0x00A98863
    ∷ at_time 50 0x87654537
    ∷ at_time 60 0x020000EF
    ∷ []

-- The dumps of so many rounds from a time on: `step` evaluates, dumps and counts.
unfoldable pub imm_dumps : ℕ → ℕ → Ports → List Ports
imm_dumps zero time t = []
imm_dumps (suc n) time t =
    let t1 = drive instructions 0 time t in
    let t2 = record t1 { imm_o = immediate t1.ir_i } in t2 ∷ imm_dumps n (suc time) t2

-- `main`: the lines printed, and the waveform.
pub record Printed : Type 0 where
  pub lines : List Bytes
  pub dumps : List Ports

abbrev pub imm_main : Ports → Printed
imm_main t = record {
  lines = codes "Setting up" ∷ codes "Time (0) " ∷ codes "Finish TB." ∷ codes "Shutting down" ∷ [];
  dumps = imm_dumps 100 0 (record t { imm_o = immediate t.ir_i });
}
