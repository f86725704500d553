-- ===== src/Cdc/Samples.antt =====
-- What the synchroniser makes of a signal, and of the pulses of its test bench.
use risc_v_rv32i_multi_cycle.Prelude.{
  ℕ, zero, suc, ◌+◌, ◌*◌, ◌%◌, ◌<◌, ◌≡◌, refl, ap, ◌∙◌, sym, subst, ◌&&◌, Bool, ◌==◌, if◌then◌else◌,
  List, [], ◌∷◌, ◌++◌, arith, replicate, drop,
}
use risc_v_rv32i_multi_cycle.Core.{flip}
use risc_v_rv32i_multi_cycle.Alu.{bit}
use risc_v_rv32i_multi_cycle.TestBench.{cycles, outputs}
use risc_v_rv32i_multi_cycle.TestBench.Phases.{cycles_later}
use risc_v_rv32i_multi_cycle.Cdc.{Cdc, cdc_eval, cdc_step, cdc_main, shift_in, show_bits}

-- The clock has just fallen, after it has been high.
abbrev at_low : ℕ → Cdc → Cdc
at_low x u = record u { sys_clk_i = 0; last_clk = 1; async_i = x }

-- One sample held at the input for each clock period of twenty time steps, from a period on.
unfoldable pub hold : List ℕ → ℕ → Cdc → Cdc
hold [] k u = u
hold (x ∷ xs) k u = hold xs (suc k) (cycles cdc_step [] 0 20 (20 * k) (at_low x u))

turned : Bool → Cdc → Cdc
turned b u = if b then record u { sys_clk_i = flip u.sys_clk_i } else u

step_later : (t : ℕ) (u : Cdc) → cdc_step (t + 20) u ≡ cdc_step t u
unfolding turned
step_later t u = ap (λ b. turned b (cdc_eval u)) phase
  where
    phase : (suc (t + 20) % 10 == 0) ≡ (suc t % 10 == 0)
    phase = ground arith

-- A period from any multiple of twenty is one from 0.
period :
    (k x : ℕ) (u : Cdc)
    → cycles cdc_step [] 0 20 (20 * k) (at_low x u) ≡ cycles cdc_step [] 0 20 0 (at_low x u)
period zero x u = refl
period (suc k) x u =
    ap (λ t. cycles cdc_step [] 0 20 t (at_low x u)) more
    ∙ cycles_later cdc_step 0 20 step_later 20 (20 * k) (at_low x u)
    ∙ period k x u
  where
    more : 20 * suc k ≡ 20 * k + 20
    more = omega arith

-- What a period does.
abbrev sampled : ℕ → Cdc → Cdc
sampled x u = show_bits (record (at_low x u) { async_r = shift_in u.async_r x })

one_period : (x : ℕ) (u : Cdc) → cycles cdc_step [] 0 20 0 (at_low x u) ≡ sampled x u
unfolding cycles
one_period x u = refl

after : List ℕ → Cdc → Cdc
after [] u = u
after (x ∷ xs) u = after xs (sampled x u)

hold-after : (xs : List ℕ) (k : ℕ) (u : Cdc) → hold xs k u ≡ after xs u
unfolding hold after
hold-after [] k u = refl
hold-after (x ∷ xs) k u =
    ap (hold xs (suc k)) (period k x u ∙ one_period x u) ∙ hold-after xs (suc k) (sampled x u)

after-append : (xs ys : List ℕ) (u : Cdc) → after (xs ++ ys) u ≡ after ys (after xs u)
unfolding after
after-append [] ys u = refl
after-append (x ∷ xs) ys u = after-append xs ys (sampled x u)

-- What the outputs show of three samples.
Shows : ℕ → ℕ → ℕ → Cdc → Type 0
Shows x y z v =
    (v.sync_o ≡ y) × (v.rising_o ≡ bit (x == 0 && y == 1)) × (v.falling_o ≡ bit (x == 1 && y == 0))

three : (x y z : ℕ) (u : Cdc) → x < 2 → y < 2 → z < 2 → Shows x y z (after (x ∷ y ∷ z ∷ []) u)
unfolding after Shows
three x y z u hx hy hz = ground arith

-- After any samples, the last three of them x, y and z, held for a clock period each from a falling edge
-- on, the output is the sample before the last, one period late, and the edge outputs tell whether the
-- signal turned between x and y, whatever came before.
pub hold_lem :
    (xs : List ℕ) (k x y z : ℕ) (u : Cdc)
    → x < 2
    → y < 2
    → z < 2
    → let v = hold (xs ++ (x ∷ y ∷ z ∷ [])) k u in
      (v.sync_o ≡ y)
      × (v.rising_o ≡ bit (x == 0 && y == 1))
      × (v.falling_o ≡ bit (x == 1 && y == 0))
unfolding Shows
hold_lem xs k x y z u hx hy hz =
    subst (Shows x y z)
      (sym (hold-after (xs ++ (x ∷ y ∷ z ∷ [])) k u ∙ after-append xs (x ∷ y ∷ z ∷ []) u))
      (three x y z (after xs u) hx hy hz)

-- Before the first evaluation: the clock has been low.
abbrev cdc_rest : ℕ → Cdc → Cdc
cdc_rest r u = record u { last_clk = 0; async_r = r }

-- The test bench from time 50 on, whatever the register and the ports hold at the start: of its four
-- pulses the first, which lies between two rising edges of the clock, does not show; the second and the
-- third, 14 and 24 time steps long, show for one period, and the fourth, 75 long, for three, each about a
-- period late. For each that shows, the edge outputs have one pulse of a period.
cdc_main_shows :
    (r : ℕ) (u : Cdc)
    → r < 8
    → let o = cdc_main (cdc_rest r u) in
      (drop 49 o.sync
        ≡ replicate 80 0
          ++ replicate 20 1
          ++ replicate 140 0
          ++ replicate 20 1
          ++ replicate 80 0
          ++ replicate 60 1
          ++ replicate 50 0)
      × (drop 49 o.rising
          ≡ replicate 80 0
            ++ replicate 20 1
            ++ replicate 140 0
            ++ replicate 20 1
            ++ replicate 80 0
            ++ replicate 20 1
            ++ replicate 90 0)
      × (drop 49 o.falling
          ≡ replicate 100 0
            ++ replicate 20 1
            ++ replicate 140 0
            ++ replicate 20 1
            ++ replicate 120 0
            ++ replicate 20 1
            ++ replicate 30 0)
unfolding cdc_main outputs
cdc_main_shows zero u h = (refl, refl, refl)
cdc_main_shows (suc zero) u h = (refl, refl, refl)
cdc_main_shows (suc (suc zero)) u h = (refl, refl, refl)
cdc_main_shows (suc (suc (suc zero))) u h = (refl, refl, refl)
cdc_main_shows (suc (suc (suc (suc zero)))) u h = (refl, refl, refl)
cdc_main_shows (suc (suc (suc (suc (suc zero))))) u h = (refl, refl, refl)
cdc_main_shows (suc (suc (suc (suc (suc (suc zero)))))) u h = (refl, refl, refl)
cdc_main_shows (suc (suc (suc (suc (suc (suc (suc zero))))))) u h = (refl, refl, refl)
cdc_main_shows (suc (suc (suc (suc (suc (suc (suc (suc r)))))))) u h = absurd (omega arith)
