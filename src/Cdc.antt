-- ===== src/Cdc.antt =====
-- The synchroniser simulation/cross_domain_clock/CDCSynchronizer.sv, and its test bench CDC_tb.cpp. What
-- the program shows is the waveform, of which the three outputs are modelled.
use risc_v_rv32i_multi_cycle.Prelude.{
  ℕ, suc, ◌+◌, ◌*◌, ◌/◌, ◌%◌, ◌&&◌, List, [], ◌∷◌, ◌==◌, if◌then◌else◌, Bytes, codes,
}
use risc_v_rv32i_multi_cycle.Core.{flip}
use risc_v_rv32i_multi_cycle.Alu.{bit}
use risc_v_rv32i_multi_cycle.TestBench.{Move, outputs}
pub mod Samples

-- The ports of Top, the clock that the last `eval` saw, and the three bits of the shift register.
pub record Cdc : Type 0 where
  pub sys_clk_i : ℕ
  pub async_i : ℕ
  pub sync_o : ℕ
  pub rising_o : ℕ
  pub falling_o : ℕ
  pub last_clk : ℕ
  pub async_r : ℕ

-- `async_r <= { async_r[1:0], async_i }`
abbrev pub shift_in : ℕ → ℕ → ℕ
shift_in r x = (r * 2 + x) % 8

-- The three assignments: bit 1 is the signal, bits 2 and 1 show its edges.
abbrev pub show_bits : Cdc → Cdc
show_bits u = record u {
  sync_o = u.async_r / 2 % 2;
  rising_o = bit (u.async_r / 2 % 4 == 1);
  falling_o = bit (u.async_r / 2 % 4 == 2);
}

abbrev pub cdc_eval : Cdc → Cdc
cdc_eval u =
    let u' =
      if u.last_clk == 0 && u.sys_clk_i == 1
      then record u { async_r = shift_in u.async_r u.async_i }
      else u in
    record (show_bits u') { last_clk = u.sys_clk_i }

-- `step`
abbrev pub cdc_step : ℕ → Cdc → Cdc
cdc_step time u =
    let u' = cdc_eval u in
    if suc time % 10 == 0 then record u' { sys_clk_i = flip u'.sys_clk_i } else u'

abbrev set_async : ℕ → ℕ → Move Cdc
set_async time v = record { at = time; make = λ u. record u { async_i = v } }

-- The moves of the loop.
abbrev cdc_moves : List (Move Cdc)
cdc_moves =
    set_async 32 1
    ∷ set_async 42 0
    ∷ set_async 105 1
    ∷ set_async 119 0
    ∷ set_async 255 1
    ∷ set_async 279 0
    ∷ set_async 355 1
    ∷ set_async 430 0
    ∷ []

-- The lines printed, and the outputs at each time step from 1 to 499.
pub record CdcTraced : Type 0 where
  pub lines : List Bytes
  pub sync : List ℕ
  pub rising : List ℕ
  pub falling : List ℕ

-- `main`
unfoldable pub cdc_main : Cdc → CdcTraced
unfolding outputs
cdc_main u =
    let start = cdc_eval (record u { sys_clk_i = 0; async_i = 0 }) in
    record {
      lines = codes "Setting up" ∷ codes "Finish TB." ∷ codes "Shutting down" ∷ [];
      sync = outputs (λ v. v.sync_o) cdc_step cdc_moves 499 1 start;
      rising = outputs (λ v. v.rising_o) cdc_step cdc_moves 499 1 start;
      falling = outputs (λ v. v.falling_o) cdc_step cdc_moves 499 1 start;
    }
