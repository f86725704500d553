-- ===== src/Memory.antt =====
-- The word memory modules/Memory.sv, and its test bench simulation/memory. The contents that the build
-- reads from a file are those that the memory has at the start.
use risc_v_rv32i_multi_cycle.Prelude.{
  ℕ, suc, ◌+◌, ◌*◌, ◌%◌, ◌&&◌, List, [], ◌∷◌, ◌++◌, ◌==◌, if◌then◌else◌, Bytes, codes,
}
use risc_v_rv32i_multi_cycle.Core.{Unpacked, update, flip}
use risc_v_rv32i_multi_cycle.Utils.{bits, emit, fill_left}
use risc_v_rv32i_multi_cycle.Pmmu.Program.{dump_rows}
use risc_v_rv32i_multi_cycle.TestBench.{Move, cycles, outputs}
pub mod Waveform

-- The ports of the top module, the `wr_i` of the module inside it, the clock that the last `eval` saw,
-- and the memory.
pub record Memory : Type 0 where
  pub clk_i : ℕ
  pub data_i : ℕ
  pub addr_i : ℕ
  pub wr_i : ℕ
  pub rd_i : ℕ
  pub data_o : ℕ
  pub inner_wr_i : ℕ
  pub last_clk : ℕ
  pub mem : Unpacked

-- Both blocks at the falling edge of the clock: a read at the edge of a write gets the old word.
abbrev memory_edge : Memory → Memory
memory_edge u = record u {
  mem = if u.wr_i == 0 then update u.mem u.addr_i u.data_i else u.mem;
  data_o = if u.rd_i == 0 then u.mem u.addr_i else u.data_o;
}

abbrev memory_eval : Memory → Memory
memory_eval u =
    let u' = if u.last_clk == 1 && u.clk_i == 0 then memory_edge u else u in
    record u' { last_clk = u.clk_i; inner_wr_i = u.wr_i }

-- `step`
abbrev memory_step : ℕ → Memory → Memory
memory_step time u =
    let u' = memory_eval u in if suc time % 10 == 0 then record u' { clk_i = flip u'.clk_i } else u'

-- The moves of the loop. Two of them are made at time 30.
abbrev memory_moves : List (Move Memory)
memory_moves =
    record { at = 10; make = λ u. record u { rd_i = 0; wr_i = 1 } }
    ∷ record { at = 20; make = λ u. record u { addr_i = 0 } }
    ∷ record { at = 30; make = λ u. record u { addr_i = 2 } }
    ∷ record { at = 30; make = λ u. record u { rd_i = 1; wr_i = 0; data_i = 0xA0A0; addr_i = 5 } }
    ∷ record { at = 50; make = λ u. record u { rd_i = 0; wr_i = 1 } }
    ∷ []

-- `"%08x"`
abbrev hex8 : ℕ → Bytes
hex8 v = fill_left 8 (emit 16 8 v [])

-- The lines printed, the output port at each time step, and the memory at the end.
pub record MemoryRun : Type 0 where
  pub lines : List Bytes
  pub port : List ℕ
  pub unit : Memory

-- The lines between the first dump and the loop.
abbrev examples : Unpacked → List Bytes
examples m =
    (codes "mem addr 8 " ++ hex8 (m 8))
    ∷ (codes "mem addr lsb " ++ hex8 (m 10))
    ∷ bits 32 (m 10)
    ∷ codes "wr_i A (1)"
    ∷ codes "wr_i B (0)"
    ∷ codes "wr_i C (1)"
    ∷ []

-- `main`
unfoldable pub memory_main : Memory → MemoryRun
unfolding cycles outputs
memory_main u =
    let u0 = memory_eval u in
    let u1 = record u0 { inner_wr_i = 1 } in
    let u2 = cycles memory_step memory_moves 0 50 0 u1 in
    let u3 = cycles memory_step memory_moves 0 100 0 u1 in
    record {
      lines =
          codes "Setting up" ∷ codes "Time (0) " ∷ dump_rows u0.mem 0 20
          ++ examples u0.mem
          ++ (codes "mem addr at(0x5) " ++ hex8 (u2.mem 5)) ∷ dump_rows u3.mem 0 20
          ++ codes "Finish TB." ∷ codes "Shutting down" ∷ [];
      port = outputs (λ v. v.data_o) memory_step memory_moves 100 0 u1;
      unit = u3;
    }
