-- ===== src/Pmmu.antt =====
-- The memory management unit, modules/Pmmu.sv, with modules/Memory.sv, Mux2.sv and Mux4.sv: the
-- design that the test bench simulation/pmmu drives. A signal that is declared with an expression
-- (`logic x = e`) follows the expression, as the comments of Pmmu.sv have it.
use Prim.Native.Nat.{ℕ, ◌+◌, ◌-◌, ◌*◌, ◌/◌, ◌%◌, ◌^◌}
use risc_v_rv32i_multi_cycle.Prelude.{Bool, true, false, ◌&&◌, not, ◌==◌, if◌then◌else◌}
use risc_v_rv32i_multi_cycle.Core.{Unpacked, update}
pub mod Bytes
pub mod Bench
pub mod Loads
pub mod Stores
pub mod Program
pub mod Verdict
pub mod Timing
pub mod Merging
pub mod Protocol
pub mod RoundTrip
pub mod Sequence

-- The ports that the test bench drives and reads; `last_clk` is the clock that the last `eval` saw,
-- `storage` the output register of the memory (`storage_data_out`), and `mem` its cells.
pub record Pmmu : Type 0 where
  pub clk_i : ℕ
  pub funct3 : ℕ
  pub byte_addr_i : ℕ
  pub wd_i : ℕ
  pub mwr_i : ℕ
  pub mrd_i : ℕ
  pub rd_o : ℕ
  pub last_clk : ℕ
  pub storage : ℕ
  pub mem : Unpacked

-- `w[hi:lo]`
abbrev pub slice : ℕ → ℕ → ℕ → ℕ
slice hi lo w = w / 2 ^ lo % 2 ^ (hi + 1 - lo)

-- `{a, b}`, where `b` has `size` bits
abbrev pub concat : ℕ → ℕ → ℕ → ℕ
concat a size b = a * 2 ^ size + b

abbrev pub mux2 : ℕ → ℕ → ℕ → ℕ
mux2 select data0 data1 = if select == 0 then data0 else data1

abbrev pub mux4 : ℕ → ℕ → ℕ → ℕ → ℕ → ℕ
mux4 select data0 data1 data2 data3 =
    if select == 0
    then data0
    else if select == 1
    then data1
    else if select == 2
    then data2
    else if select == 3
    then data3
    else 0

-- `BYTE_SIZE` and `HALFWORD_SIZE`
abbrev pub is_byte_size : ℕ → Bool
is_byte_size f = slice 1 0 f == 0

abbrev pub is_halfword_size : ℕ → Bool
is_halfword_size f = slice 1 0 f == 1

abbrev signed_op : ℕ → Bool
signed_op f = slice 2 2 f == 0

-- `byte_addr_i[WORDS+1:2]`
abbrev pub word_addr : ℕ → ℕ
word_addr a = slice 11 2 a

abbrev pub byte_data : ℕ → ℕ → ℕ
byte_data a w = mux4 (slice 1 0 a) (slice 7 0 w) (slice 15 8 w) (slice 23 16 w) (slice 31 24 w)

abbrev pub halfword_data : ℕ → ℕ → ℕ
halfword_data a w = mux2 (slice 1 1 a) (slice 15 0 w) (slice 31 16 w)

abbrev pub data_sign : ℕ → ℕ → ℕ → ℕ
data_sign f a w =
    if signed_op f
    then (if is_byte_size f then slice 7 7 (byte_data a w) else slice 15 15 (halfword_data a w))
    else 0

-- `rd_o`, from the operation, the byte address, the read line and the word that was read
abbrev pub read_data : ℕ → ℕ → ℕ → ℕ → ℕ
read_data f a mrd w =
    if mrd == 0
    then (if is_byte_size f
        then concat (data_sign f a w * (2 ^ 24 - 1)) 8 (byte_data a w)
        else if is_halfword_size f
        then concat (data_sign f a w * (2 ^ 16 - 1)) 16 (halfword_data a w)
        else w)
    else w

abbrev store_byte_data : ℕ → ℕ → ℕ → ℕ
store_byte_data a v w =
    mux4 (slice 1 0 a) (concat (slice 31 8 w) 8 (slice 7 0 v))
      (concat (concat (slice 31 16 w) 8 (slice 7 0 v)) 8 (slice 7 0 w))
      (concat (concat (slice 31 24 w) 8 (slice 7 0 v)) 16 (slice 15 0 w))
      (concat (slice 7 0 v) 24 (slice 23 0 w))

abbrev store_halfword_data : ℕ → ℕ → ℕ → ℕ
store_halfword_data a v w =
    mux2 (slice 1 1 a) (concat (slice 31 16 w) 16 (slice 15 0 v))
      (concat (slice 15 0 v) 16 (slice 15 0 w))

-- `storage_data_in`, from the operation, the byte address, `wd_i` and the word that was read
abbrev pub storage_data_in : ℕ → ℕ → ℕ → ℕ → ℕ
storage_data_in f a v w =
    if is_byte_size f
    then store_byte_data a v w
    else if is_halfword_size f
    then store_halfword_data a v w
    else v

-- The memory at the falling edge of the clock; both of its blocks read the values from before.
abbrev falling_edge : Pmmu → Pmmu
falling_edge t = record t {
  mem =
      if t.mwr_i == 0
      then update t.mem (word_addr t.byte_addr_i)
          (storage_data_in t.funct3 t.byte_addr_i t.wd_i t.storage)
      else t.mem;
  storage = if t.mrd_i == 0 then t.mem (word_addr t.byte_addr_i) else t.storage;
}

-- `rd_o` follows the other signals.
abbrev settle : Pmmu → Pmmu
settle t = record t {
  rd_o = read_data t.funct3 t.byte_addr_i t.mrd_i t.storage;
  last_clk = t.clk_i;
}

abbrev pub eval : Pmmu → Pmmu
eval t = settle (if t.last_clk == 1 && t.clk_i == 0 then falling_edge t else t)
