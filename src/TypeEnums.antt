-- ===== src/TypeEnums.antt =====
-- The enumerations of definitions/TypeEnums.sv that Verilator makes public: the operations of the ALU.
use risc_v_rv32i_multi_cycle.Prelude.{ℕ, Bytes, codes}

-- `ALU_Ops`, with the value and the identifier of each.
pub data AluOp : Type 0 where
  add sub xor or and sll srl sra slt sltu : AluOp

abbrev pub encode : AluOp → ℕ
encode add = 0b000000
encode sub = 0b000010
encode xor = 0b100000
encode or = 0b110000
encode and = 0b111000
encode sll = 0b001000
encode srl = 0b101000
encode sra = 0b101010
encode slt = 0b010000
encode sltu = 0b011000

abbrev pub identifier : AluOp → Bytes
identifier add = codes "AddOp"
identifier sub = codes "SubOp"
identifier xor = codes "XorOp"
identifier or = codes "OrOp"
identifier and = codes "AndOp"
identifier sll = codes "SllOp"
identifier srl = codes "SrlOp"
identifier sra = codes "SraOp"
identifier slt = codes "SltOp"
identifier sltu = codes "SltuOp"
