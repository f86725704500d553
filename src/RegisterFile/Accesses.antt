-- ===== src/RegisterFile/Accesses.antt =====
-- The register file over any accesses, one to a clock cycle: what it stores and what it shows.
use risc_v_rv32i_multi_cycle.Prelude.{
  ℕ, ◌≡◌, refl, ap, ◌∙◌, sym, Bool, Bool-cases, inl, inr, true, false, ◌&&◌, not, List, [], ◌∷◌,
  ◌==◌, if◌then◌else◌, arith,
}
use risc_v_rv32i_multi_cycle.Core.{Unpacked, update}
use risc_v_rv32i_multi_cycle.RegisterFile.{RegisterFile, source, file_eval}

-- What is at the input ports in a clock cycle.
pub record Access : Type 0 where
  pub we : ℕ
  pub dst : ℕ
  pub word : ℕ
  pub src_a : ℕ
  pub src_b : ℕ

abbrev present : Access → RegisterFile → RegisterFile
present w t = record t {
  reg_we_i = w.we;
  reg_dst_i = w.dst;
  data_i = w.word;
  reg_src_a_i = w.src_a;
  reg_src_b_i = w.src_b;
}

-- The clock rises with the inputs of an access, and falls.
abbrev pub file_cycle : Access → RegisterFile → RegisterFile
file_cycle w t =
    let up = file_eval (record (present w t) { clk_i = 1 }) in file_eval (record up { clk_i = 0 })

-- One cycle to an access, the latest first.
pub file_cycles : List Access → RegisterFile → RegisterFile
file_cycles [] t = t
file_cycles (w ∷ ws) t = file_cycle w (file_cycles ws t)

-- The word of the latest access that writes a register, or what it had before them all.
unfoldable pub latest : List Access → (ℕ → ℕ) → ℕ → ℕ
latest [] before i = before i
latest (w ∷ ws) before i = if w.we == 0 && w.dst == i then w.word else latest ws before i

rose : RegisterFile → RegisterFile
rose t = record t {
  clk_i = 1;
  src_a_o = source t.bank t.reg_src_a_i;
  src_b_o = source t.bank t.reg_src_b_i;
  last_clk = 1;
}

-- Nothing is written when the clock rises.
risen : (t : RegisterFile) → file_eval (record t { clk_i = 1 }) ≡ rose t
unfolding rose
risen t = elim (Bool-cases (t.last_clk == 1)) [ inl e ↦ rw e refl | inr e ↦ rw e refl ]

kept : Access → Unpacked → Unpacked
kept w bank = if w.we == 0 && not (w.dst == 0) then update bank w.dst w.word else bank

-- What a cycle leaves of the registers and of the outputs.
file_cycle_lem :
    (w : Access) (t : RegisterFile)
    → ((file_cycle w t).bank ≡ kept w t.bank)
      × ((file_cycle w t).src_a_o ≡ source (kept w t.bank) w.src_a)
      × ((file_cycle w t).src_b_o ≡ source (kept w t.bank) w.src_b)
unfolding rose kept
file_cycle_lem w t =
    let e = ap (λ u. file_eval (record u { clk_i = 0 })) (risen (present w t)) in
    (ap (λ u. u.bank) e, ap (λ u. u.src_a_o) e, ap (λ u. u.src_b_o) e)

pick : (b : Bool) (m n : Unpacked) (i : ℕ) → (if b then m else n) i ≡ (if b then m i else n i)
pick true m n i = refl
pick false m n i = refl

written :
    (w : Access) (bank : Unpacked) (i : ℕ)
    → kept w bank i ≡ (if (w.we == 0 && w.dst == i) && not (i == 0) then w.word else bank i)
unfolding kept
written w bank i =
    pick (w.we == 0 && not (w.dst == 0)) (update bank w.dst w.word) bank i ∙ ground arith

guarded :
    (w : Access) (bank : Unpacked) (i first later : ℕ)
    → bank i ≡ (if i == 0 then first else later)
    → (if (w.we == 0 && w.dst == i) && not (i == 0) then w.word else bank i)
      ≡ (if i == 0 then first else if w.we == 0 && w.dst == i then w.word else later)
guarded w bank i first later h = ground (arith, h)

banks :
    (ws : List Access) (t : RegisterFile) (i : ℕ)
    → (file_cycles ws t).bank i ≡ (if i == 0 then t.bank 0 else latest ws t.bank i)
unfolding file_cycles latest
banks [] t i = ground arith
banks (w ∷ ws) t i =
    ap (λ m. m i) (file_cycle_lem w (file_cycles ws t)).0
    ∙ written w (file_cycles ws t).bank i
    ∙ guarded w (file_cycles ws t).bank i (t.bank 0) (latest ws t.bank i) (banks ws t i)

shown :
    (bank : Unpacked) (i first later : ℕ)
    → bank i ≡ (if i == 0 then first else later)
    → source bank i ≡ (if i == 0 then 0 else later)
shown bank i first later h = ground (arith, h)

-- After any accesses a register other than 0 has the word of the latest write to it, or what it had at
-- the start if there is none, and register 0 has what it had at the start, whatever was written to it.
-- Each of the two outputs then shows the register that the last access selects for it, and 0 for register
-- 0.
pub file_cycles_lem :
    (w : Access) (ws : List Access) (t : RegisterFile)
    → let t' = file_cycles (w ∷ ws) t in
      ((i : ℕ) → t'.bank i ≡ (if i == 0 then t.bank 0 else latest (w ∷ ws) t.bank i))
      × (t'.src_a_o ≡ (if w.src_a == 0 then 0 else latest (w ∷ ws) t.bank w.src_a))
      × (t'.src_b_o ≡ (if w.src_b == 0 then 0 else latest (w ∷ ws) t.bank w.src_b))
unfolding file_cycles
file_cycles_lem w ws t =
    let (bank, a, b) = file_cycle_lem w (file_cycles ws t) in
    let value = λ (i : ℕ).
      shown (file_cycles (w ∷ ws) t).bank i (t.bank 0) (latest (w ∷ ws) t.bank i)
        (banks (w ∷ ws) t i) in
    (
      banks (w ∷ ws) t,
      a ∙ ap (λ m. source m w.src_a) (sym bank) ∙ value w.src_a,
      b ∙ ap (λ m. source m w.src_b) (sym bank) ∙ value w.src_b,
    )
