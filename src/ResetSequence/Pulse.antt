-- ===== src/ResetSequence/Pulse.antt =====
-- The pulse that `reset_sequence` makes.
use risc_v_rv32i_multi_cycle.Prelude.{
  ℕ, zero, suc, ◌+◌, ◌-◌, ◌%◌, ◌≤◌, ◌≡◌, refl, sym, ap, ◌∙◌, true, false, Bool-cases, inl, inr,
  Bytes, List, [], ◌∷◌, ◌++◌, ◌==◌, leb, if◌then◌else◌, map, replicate, arith,
}
use risc_v_rv32i_multi_cycle.ResetSequence.{
  Resettable, ResettableLaws, after_dump, lowered, reset_rounds, reset_sequence,
}

some_left :
    (m : ℕ) (xs ys : List ℕ)
    → (if suc m == 0 then xs else ys ++ replicate (suc m - 1) 0) ≡ ys ++ replicate m 0
some_left m xs ys =
    ap (λ b. if b then xs else ys ++ replicate (suc m - 1) 0) not_zero
    ∙ ap (λ j. ys ++ replicate j 0) before
  where
    not_zero : (suc m == 0) ≡ false
    not_zero = ground arith

    before : suc m - 1 ≡ m
    before = omega arith

module _ {D : Type 0} (c : Resettable D) (l : ResettableLaws c) (number : ℕ → Bytes) where
  after_dump_lem : (time : ℕ) (d : D) → c.reset_line (after_dump c time d) ≡ c.reset_line d
  after_dump_lem time d = elim (Bool-cases (suc time % 10 == 0)) [
    | inl e ↦ rw e (l.turn_lem d)
    | inr e ↦ rw e refl
  ]

  dumped :
      (base time : ℕ) (d : D)
      → c.reset_line (c.eval (lowered c base time (c.eval d)))
        ≡ (if time == base + 1 then 0 else c.reset_line d)
  dumped base time d = elim (Bool-cases (time == base + 1)) [
    | inl e ↦ rw e (l.eval_lem _ ∙ l.set_lem 0 _)
    | inr e ↦ rw e (l.eval_lem _ ∙ l.eval_lem d)
  ]

  abbrev next : ℕ → ℕ → D → D
  next base time d = c.eval (lowered c base time (c.eval d))

  dumps_from :
      (base n time v : ℕ) (d : D) (rest : List ℕ)
      → c.reset_line (next base time d) ≡ v
      → map c.reset_line
          (reset_rounds c number base n (suc time) (after_dump c time (next base time d))).dumps
        ≡ rest
      → map c.reset_line (reset_rounds c number base (suc n) time d).dumps ≡ v ∷ rest
  unfolding reset_rounds
  dumps_from base n time v d rest e h = cc (e, h)

  -- From behind the base time on, with the reset low, it stays low.
  rounds_low :
      (base n time : ℕ) (d : D)
      → c.reset_line d ≡ 0
      → map c.reset_line (reset_rounds c number base n time d).dumps ≡ replicate n 0
  unfolding reset_rounds
  rounds_low base zero time d e = refl
  rounds_low base (suc n) time d e = dumps_from base n time 0 d (replicate n 0) low (
      rounds_low base n (suc time) (after_dump c time (next base time d))
        (after_dump_lem time (next base time d) ∙ low))
    where
      low : c.reset_line (next base time d) ≡ 0
      low = ground (arith, dumped base time d, e)

  no_rounds :
      (base time : ℕ) (d : D) → map c.reset_line (reset_rounds c number base 0 time d).dumps ≡ []
  unfolding reset_rounds
  no_rounds base time d = refl

  -- Up to the base time the reset is as it was.
  rounds_before :
      (base k time v : ℕ) (d : D)
      → time + k ≤ base + 1
      → c.reset_line d ≡ v
      → map c.reset_line (reset_rounds c number base k time d).dumps ≡ replicate k v
  rounds_before base zero time v d h e = no_rounds base time d
  rounds_before base (suc k) time v d h e = dumps_from base k time v d (replicate k v) same (
      rounds_before base k (suc time) v (after_dump c time (next base time d)) (omega arith)
        (after_dump_lem time (next base time d) ∙ same))
    where
      same : c.reset_line (next base time d) ≡ v
      same = ground (arith, dumped base time d, h, e)

  -- Up to the base time and a step more the reset is as it was.
  rounds_dumps :
      (base k m time v : ℕ) (d : D)
      → time + k ≡ base + 1
      → c.reset_line d ≡ v
      → map c.reset_line (reset_rounds c number base (k + m) time d).dumps
        ≡ replicate k v ++ replicate m 0
  rounds_dumps base zero zero time v d h e =
      ap (λ j. map c.reset_line (reset_rounds c number base j time d).dumps) none_left
      ∙ no_rounds base time d
    where
      none_left : 0 + 0 ≡ 0
      none_left = omega arith
  rounds_dumps base zero (suc m) time v d h e =
      ap (λ j. map c.reset_line (reset_rounds c number base j time d).dumps) one_left
      ∙ dumps_from base m time 0 d (replicate m 0) low (
          rounds_low base m (suc time) (after_dump c time (next base time d))
            (after_dump_lem time (next base time d) ∙ low))
    where
      one_left : 0 + suc m ≡ suc m
      one_left = omega arith

      low : c.reset_line (next base time d) ≡ 0
      low = ground (arith, dumped base time d, h)
  rounds_dumps base (suc k) m time v d h e =
      ap (λ j. map c.reset_line (reset_rounds c number base j time d).dumps) one_left
      ∙ dumps_from base (k + m) time v d (replicate k v ++ replicate m 0) same (
          rounds_dumps base k m (suc time) v (after_dump c time (next base time d)) (omega arith)
            (after_dump_lem time (next base time d) ∙ same))
    where
      one_left : suc k + m ≡ suc (k + m)
      one_left = omega arith

      same : c.reset_line (next base time d) ≡ v
      same = ground (arith, dumped base time d, h, e)

  rounds_end :
      (base n time : ℕ) (d : D)
      → ((reset_rounds c number base n time d).time_step ≡ time + n)
        × (c.reset_line (reset_rounds c number base n time d).unit ≡ 1)
  unfolding reset_rounds
  rounds_end base zero time d = (omega arith, l.set_lem 1 _)
  rounds_end base (suc n) time d =
      let (t, e) = rounds_end base n (suc time) (after_dump c time (next base time d)) in
      (omega (arith, t), e)

  -- `reset_sequence` from a time not behind the base time, over a
  -- design that leaves its reset alone: the waveform shows the reset as it was up to the base time, and
  -- low for one time step less than the duration, and the sequence ends as far behind the base time as
  -- the duration, with the reset high. With no duration at all it only raises the reset.
  pub reset_sequence_lem :
      (time base duration v : ℕ) (d : D)
      → time ≤ base
      → c.reset_line d ≡ v
      → let r = reset_sequence c number time base duration d in
        (map c.reset_line r.dumps ≡ (
          if duration == 0
          then replicate (base - time) v
          else replicate (base + 1 - time) v ++ replicate (duration - 1) 0))
        × (r.time_step ≡ base + duration)
        × (c.reset_line r.unit ≡ 1)
  unfolding reset_sequence
  reset_sequence_lem time base duration v d h e = rw entered (pulse duration, last.0, last.1)
    where
      entered : leb time (base + duration) ≡ true
      entered = ground arith

      pulse :
          (m : ℕ)
          → map c.reset_line (reset_rounds c number base (base + m - time) time d).dumps ≡ (
              if m == 0
              then replicate (base - time) v
              else replicate (base + 1 - time) v ++ replicate (m - 1) 0)
      pulse zero =
          ap (λ j. map c.reset_line (reset_rounds c number base j time d).dumps) (omega arith)
          ∙ rounds_before base (base - time) time v d (omega arith) e
      pulse (suc m) =
          ap (λ j. map c.reset_line (reset_rounds c number base j time d).dumps) (omega arith)
          ∙ rounds_dumps base (base + 1 - time) m time v d (omega arith) e
          ∙ sym (some_left m (replicate (base - time) v) (replicate (base + 1 - time) v))

      last :
          ((reset_rounds c number base (base + duration - time) time d).time_step ≡ base + duration)
          × (c.reset_line (reset_rounds c number base (base + duration - time) time d).unit ≡ 1)
      last = let (t, q) = rounds_end base (base + duration - time) time d in (omega (arith, t), q)
