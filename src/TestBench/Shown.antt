-- ===== src/TestBench/Shown.antt =====
-- What a waveform shows that has been checked at every time step.
use risc_v_rv32i_multi_cycle.Prelude.{
  ℕ, ◌+◌, ◌*◌, ◌<◌, ◌/◌, ◌≡◌, refl, sym, ap, ◌∙◌, Bool, true, false, Option, none, some, List, ◌==◌,
  get_elem?, all_below, all_below_lem, arith, ==_iff,
}

module _ {U : Type 0} where
  -- A dump has a value.
  unfoldable pub shows : (U → ℕ) → Option U → Option ℕ → Bool
  shows f (some d) (some v) = f d == v
  shows f (some d) none = false
  shows f none p = false

  shows→ :
      (f : U → ℕ) (o : Option U) (p : Option ℕ)
      → shows f o p ≡ true
      → (d : U) × (o ≡ some d) × (p ≡ some (f d))
  unfolding shows
  shows→ f (some d) (some v) h = (d, refl, ap some (sym ((==_iff (f d) v).0 h)))
  shows→ f (some d) none h = absurd (ground arith)
  shows→ f none p h = absurd (ground arith)

  -- Stimuli ten time steps apart, the first at 10: in each of the ten steps behind one of them, the
  -- dump has the value that is listed for it.
  pub checked :
      (f : U → ℕ) (dumps : List U) (expected : List ℕ) (n : ℕ)
      → all_below (10 * n) (λ t. shows f (get_elem? dumps (10 + t)) (get_elem? expected (t / 10)))
        ≡ true
      → (k i : ℕ) → k < n
      → i < 10
      → (d : U) × (get_elem? dumps (10 + (10 * k + i)) ≡ some d)
        × (get_elem? expected k ≡ some (f d))
  checked f dumps expected n h k i hk hi =
      let (d, e, e') = shows→ f _ _ (
        all_below_lem (10 * n)
          (λ t. shows f (get_elem? dumps (10 + t)) (get_elem? expected (t / 10))) h (10 * k + i)
          (omega arith)) in
      (d, e, ap (get_elem? expected) stimulus ∙ e')
    where
      stimulus : k ≡ (10 * k + i) / 10
      stimulus = omega arith
