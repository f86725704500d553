-- ===== src/TestBench/Loops.antt =====
-- The waiting loops of the test benches, `while (!…) { … }`, on fuel.
use risc_v_rv32i_multi_cycle.Prelude.{
  ℕ, zero, suc, ◌≤◌, ◌<◌, ◌≡◌, ◌↔◌, refl, Bool, true, false, Option, none, some, arith, ap, ◌∙◌,
  ◌>>=◌, sym, Bool-cases, inl, inr,
}
use mathlib.Core.Option.{some-injective}

module _ {S : Type 0} (done : S → Bool) (body : S → S) where
  -- What a loop does after the test at its head.
  abbrev goes_on : Bool → Option S → S → Option S
  goes_on true later s = some s
  goes_on false later s = later

  -- The state in which the loop ends; none where the fuel is used up.
  unfoldable pub loop_until : ℕ → S → Option S
  loop_until zero s = goes_on (done s) none s
  loop_until (suc n) s = goes_on (done s) (loop_until n (body s)) s

  -- More fuel changes nothing.
  ended_more :
      (b : Bool) (s r : S) (k : ℕ)
      → done s ≡ b
      → goes_on b none s ≡ some r
      → loop_until k s ≡ some r
  unfolding loop_until
  ended_more true s r zero e h = rw e h
  ended_more true s r (suc k) e h = rw e h
  ended_more false s r k e h = absurd (cc h)

  goes_more :
      (b : Bool) (later later' : Option S) (s r : S)
      → (later ≡ some r → later' ≡ some r)
      → goes_on b later s ≡ some r
      → goes_on b later' s ≡ some r
  goes_more true later later' s r f h = h
  goes_more false later later' s r f h = f h

  pub loop_until_more :
      (n m : ℕ) (s r : S) → n ≤ m → loop_until n s ≡ some r → loop_until m s ≡ some r
  unfolding loop_until
  loop_until_more zero m s r l h = ended_more (done s) s r m refl h
  loop_until_more (suc n) zero s r l h = absurd (omega arith)
  loop_until_more (suc n) (suc m) s r l h =
      goes_more (done s) (loop_until n (body s)) (loop_until m (body s)) s r
        (loop_until_more n m (body s) r (omega arith)) h

  -- A loop whose test holds at once does nothing.
  pub loop_until_done : (n : ℕ) (s : S) → done s ≡ true → loop_until n s ≡ some s
  unfolding loop_until
  loop_until_done zero s e = rw e refl
  loop_until_done (suc n) s e = rw e refl

  -- One whose test fails makes a round.
  pub loop_until_next :
      (n : ℕ) (s : S) → done s ≡ false → loop_until (suc n) s ≡ loop_until n (body s)
  unfolding loop_until
  loop_until_next n s e = rw e refl

  -- So many rounds, whatever the test says.
  unfoldable pub iterate : ℕ → S → S
  iterate zero s = s
  iterate (suc k) s = iterate k (body s)

  pub iterate_last : (k : ℕ) (s : S) → iterate (suc k) s ≡ body (iterate k s)
  unfolding iterate
  iterate_last zero s = refl
  iterate_last (suc k) s = iterate_last k (body s)

  -- The test fails before a round.
  abbrev pub FailsBelow : ℕ → S → Type 0
  FailsBelow n s = (j : ℕ) → j < n → done (iterate j s) ≡ false

  -- The state behind the first round before which the test holds, of at most so many.
  abbrev pub First : ℕ → S → S → Type 0
  First n s r = (k : ℕ) × (k ≤ n) × FailsBelow k s × (done (iterate k s) ≡ true) × (r ≡ iterate k s)

  fails_next : (n : ℕ) (s : S) → done s ≡ false → FailsBelow n (body s) → FailsBelow (suc n) s
  unfolding iterate
  fails_next n s e f zero h = e
  fails_next n s e f (suc j) h = f j (omega arith)

  ends-First : (n : ℕ) (s r : S) → loop_until n s ≡ some r → First n s r
  unfolding loop_until iterate
  ends-First zero s r h = elim (Bool-cases (done s)) [
    | inl e ↦ (
      0,
      omega arith,
      λ j l. absurd (omega arith),
      e,
      sym (some-injective s r (sym (loop_until_done zero s e) ∙ h)),
    )
    | inr e ↦ absurd (ground (arith, h, e))
  ]
  ends-First (suc n) s r h = elim (Bool-cases (done s)) [
    | inl e ↦ (
      0,
      omega arith,
      λ j l. absurd (omega arith),
      e,
      sym (some-injective s r (sym (loop_until_done (suc n) s e) ∙ h)),
    )
    | inr e ↦
        let (k, l, f, d, q) = ends-First n (body s) r (sym (loop_until_next n s e) ∙ h) in
        (suc k, omega arith, fails_next k s e f, d, q)
  ]

  First-loop_until :
      (n k : ℕ) (s : S)
      → k ≤ n
      → FailsBelow k s
      → done (iterate k s) ≡ true
      → loop_until n s ≡ some (iterate k s)
  unfolding loop_until iterate
  First-loop_until n zero s l f d = loop_until_done n s d
  First-loop_until zero (suc k) s l f d = absurd (omega arith)
  First-loop_until (suc n) (suc k) s l f d =
      loop_until_next n s (f 0 (omega arith))
      ∙ First-loop_until n k (body s) (omega arith) (λ j h. f (suc j) (omega arith)) d

  -- A loop ends in a state exactly if that is the one behind the first round before which its test holds.
  pub loop_until-First : (n : ℕ) (s r : S) → (loop_until n s ≡ some r) ↔ First n s r
  loop_until-First n s r =
      (ends-First n s r, λ (k, l, f, d, q). First-loop_until n k s l f d ∙ ap some (sym q))

  out_of_fuel : (n : ℕ) (s : S) → loop_until n s ≡ none → FailsBelow (suc n) s
  unfolding loop_until iterate
  out_of_fuel zero s h = elim (Bool-cases (done s)) [
    | inl e ↦ absurd (ground (arith, h, e))
    | inr e ↦ fails_next 0 s e (λ j l. absurd (omega arith))
  ]
  out_of_fuel (suc n) s h = elim (Bool-cases (done s)) [
    | inl e ↦ absurd (ground (arith, h, e))
    | inr e ↦ fails_next (suc n) s e (out_of_fuel n (body s) (sym (loop_until_next n s e) ∙ h))
  ]

  fuel_out : (n : ℕ) (s : S) → FailsBelow (suc n) s → loop_until n s ≡ none
  unfolding loop_until iterate
  fuel_out zero s f = rw (f 0 (omega arith)) refl
  fuel_out (suc n) s f =
      loop_until_next n s (f 0 (omega arith)) ∙ fuel_out n (body s) (λ j h. f (suc j) (omega arith))

  -- It uses up its fuel exactly if the test fails before each of its rounds, and behind the last.
  pub loop_until-none : (n : ℕ) (s : S) → (loop_until n s ≡ none) ↔ FailsBelow (suc n) s
  loop_until-none n s = (out_of_fuel n s, fuel_out n s)

module _ {A B : Type 0} where
  pub bind_some :
      (m : Option A) (f : A → Option B) (a : A) (b : B)
      → m ≡ some a
      → f a ≡ some b
      → (m >>= f) ≡ some b
  bind_some m f a b e h = ap (λ x. x >>= f) e ∙ h

  pub bind_some_inv :
      (m : Option A) (g : A → B) (b : B)
      → (m >>= λ a. some (g a)) ≡ some b
      → (a : A) × (m ≡ some a) × (g a ≡ b)
  bind_some_inv none g b h = absurd (cc h)
  bind_some_inv (some a) g b h = (a, refl, some-injective (g a) b h)

  pub bind_none_inv : (m : Option A) (g : A → B) → (m >>= λ a. some (g a)) ≡ none → m ≡ none
  bind_none_inv none g h = refl
  bind_none_inv (some a) g h = absurd (cc h)

  pub bind_inv :
      (m : Option A) (f : A → Option B) (b : B)
      → (m >>= f) ≡ some b
      → (a : A) × (m ≡ some a) × (f a ≡ some b)
  bind_inv none f b h = absurd (cc h)
  bind_inv (some a) f b h = (a, refl, h)
