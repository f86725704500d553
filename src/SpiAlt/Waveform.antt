-- ===== src/SpiAlt/Waveform.antt =====
-- The reset and the chip select in the waveform of simulation/spi_alt.
use risc_v_rv32i_multi_cycle.Prelude.{
  ℕ, zero, suc, ◌%◌, ◌≡◌, refl, ◌∙◌, Bool-cases, inl, inr, List, ◌++◌, ◌==◌, map, replicate,
}
use mathlib.Core.List.{map-append}
use risc_v_rv32i_multi_cycle.ResetSequence.{Ran, after_dump, run_on}
use risc_v_rv32i_multi_cycle.SpiAlt.{
  SpiAlt, alt_lines, alt_assert_reset, alt_steps, select_byte, deselect, alt_main,
}

module _ {H : Type 0} (eval : SpiAlt H → SpiAlt H) where
  -- A line that the design leaves alone, and that the clock is not.
  record Steady (line : SpiAlt H → ℕ) : Type 0 where
    eval_lem : (u : SpiAlt H) → line (eval u) ≡ line u
    clock_lem : (v : ℕ) (u : SpiAlt H) → line (record u { pll_clk_i = v }) ≡ line u

  module _ (line : SpiAlt H → ℕ) (s : Steady line) where
    dump_line : (t : ℕ) (u : SpiAlt H) → line (after_dump (alt_lines eval) t u) ≡ line u
    dump_line t u = elim (Bool-cases (suc t % 10 == 0)) [
      | inl e ↦ rw e (s.clock_lem _ u)
      | inr e ↦ rw e refl
    ]

    run_line :
        (n t v : ℕ) (u : SpiAlt H)
        → line u ≡ v
        → let r = run_on (alt_lines eval) n t u in
          (map line r.dumps ≡ replicate n v) × (line r.unit ≡ v)
    unfolding run_on
    run_line zero t v u e = (refl, e)
    run_line (suc n) t v u e =
        let (p, q) =
          run_line n (suc t) v (after_dump (alt_lines eval) t (eval u))
            (dump_line t (eval u) ∙ s.eval_lem u ∙ e) in
        (cc (s.eval_lem u, e, p), q)

    -- A run behind another.
    appended :
        (xs : List (SpiAlt H)) (ys : List ℕ) (n t v : ℕ) (u : SpiAlt H)
        → map line xs ≡ ys
        → line u ≡ v
        → let r = run_on (alt_lines eval) n t u in
          (map line (xs ++ r.dumps) ≡ ys ++ replicate n v) × (line r.unit ≡ v)
    appended xs ys n t v u h e =
        let (p, q) = run_line n t v u e in
        (map-append line xs (run_on (alt_lines eval) n t u).dumps ∙ cc (h, p), q)

-- The program of spi_alt, over a design that leaves its reset and its chip select alone: of the 2211 time
-- steps of the waveform the reset is low in the 100 from time 1 on and else high, and the chip select is
-- low in the 1609 behind them and else high.
alt_main_lem :
    {H : Type 0} (eval : SpiAlt H → SpiAlt H) (u : SpiAlt H)
    → ((v : SpiAlt H) → (eval v).rst_i_n ≡ v.rst_i_n)
    → ((v : SpiAlt H) → (eval v).spi_cs_i_n ≡ v.spi_cs_i_n)
    → let r = alt_main eval u in
      (map (λ v. v.rst_i_n) r.dumps
        ≡ (((replicate 1 1 ++ replicate 100 0) ++ replicate 1609 1) ++ replicate 1 1)
          ++ replicate 500 1)
      × (map (λ v. v.spi_cs_i_n) r.dumps
          ≡ (((replicate 1 1 ++ replicate 100 1) ++ replicate 1609 0) ++ replicate 1 1)
            ++ replicate 500 1)
unfolding alt_main
alt_main_lem {H} eval u hr hc = (resets, selects)
  where
    u0 : SpiAlt H
    u0 = eval (record u { rst_i_n = 1; pll_clk_i = 0; spi_cs_i_n = 1 })

    r0 : Ran (SpiAlt H)
    r0 = run_on (alt_lines eval) 1 0 u0

    r1 : Ran (SpiAlt H)
    r1 = alt_assert_reset eval 100 r0

    r2 : Ran (SpiAlt H)
    r2 = alt_steps eval 1609 select_byte r1

    r3 : Ran (SpiAlt H)
    r3 = alt_steps eval 1 deselect r2

    rst : Steady eval (λ v. v.rst_i_n)
    rst = record { eval_lem = hr; clock_lem = λ v w. refl }

    cs : Steady eval (λ v. v.spi_cs_i_n)
    cs = record { eval_lem = hc; clock_lem = λ v w. refl }

    resets :
        map (λ v. v.rst_i_n) (alt_main eval u).dumps
        ≡ (((replicate 1 1 ++ replicate 100 0) ++ replicate 1609 1) ++ replicate 1 1)
          ++ replicate 500 1
    resets =
        let (a0, b0) = run_line eval _ rst 1 0 1 u0 (hr _) in
        let (a1, b1) =
          appended eval _ rst r0.dumps _ 100 1 0 (record r0.unit { rst_i_n = 0 }) a0 refl in
        let (a2, b2) = appended eval _ rst r1.dumps _ 1609 101 1 (select_byte r1.unit) a1 refl in
        let (a3, b3) = appended eval _ rst r2.dumps _ 1 1710 1 (deselect r2.unit) a2 b2 in
        (appended eval _ rst r3.dumps _ 500 1711 1 r3.unit a3 b3).0

    selects :
        map (λ v. v.spi_cs_i_n) (alt_main eval u).dumps
        ≡ (((replicate 1 1 ++ replicate 100 1) ++ replicate 1609 0) ++ replicate 1 1)
          ++ replicate 500 1
    selects =
        let (a0, b0) = run_line eval _ cs 1 0 1 u0 (hc _) in
        let (a1, b1) =
          appended eval _ cs r0.dumps _ 100 1 1 (record r0.unit { rst_i_n = 0 }) a0 b0 in
        let (a2, b2) = appended eval _ cs r1.dumps _ 1609 101 0 (select_byte r1.unit) a1 refl in
        let (a3, b3) = appended eval _ cs r2.dumps _ 1 1710 1 (deselect r2.unit) a2 refl in
        (appended eval _ cs r3.dumps _ 500 1711 1 r3.unit a3 b3).0
