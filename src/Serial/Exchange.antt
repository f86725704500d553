-- ===== src/Serial/Exchange.antt =====
-- The program of simulation/spi_sync3, over any design: when it ends, and in what.
use risc_v_rv32i_multi_cycle.Prelude.{
  ℕ, ◌+◌, ◌<◌, ◌≡◌, refl, ap, ◌∙◌, sym, subst, true, false, Option, some, ◌>>=◌, arith, ◌↔◌, [],
  ◌∷◌, codes, ==_iff,
}
use mathlib.Core.Option.{some-injective}
use risc_v_rv32i_multi_cycle.TestBench.Loops.{bind_some, bind_inv}
use risc_v_rv32i_multi_cycle.TestBench.Waits.{Wait}
use risc_v_rv32i_multi_cycle.Serial.{Link, Linked, time_line, link_steps, link_start}
use risc_v_rv32i_multi_cycle.Serial.Handshake.{at_link, sending, with_bytes, finished, sync3_main}
use risc_v_rv32i_multi_cycle.Serial.Request.{
  IsFirst, waiting, falls_at, requested, high_at, request_lem, ready_high_lem, waiting-time,
  falls_late,
}

-- What follows a wait starts in the state that the wait ends in.
waits_for :
    {A B : Type 0} {P : ℕ → Type 0} {g : ℕ → A} (m : Option A) (f : A → Option B) (o : B)
    → ((r : A) → (m ≡ some r) ↔ ((k : ℕ) × P k × (r ≡ g k)))
    → ((m >>= f) ≡ some o) ↔ ((k : ℕ) × P k × (f (g k) ≡ some o))
waits_for {P = P} {g = g} m f o w = (
  λ h.
      let (a, e, h') = bind_inv m f o h in
      let (k, p, q) = (w a).0 e in (k, p, subst (λ x. f x ≡ some o) q h'),
  λ (k, p, h). bind_some m f (g k) o ((w (g k)).1 (k, p, refl)) h,
)

module _ {H : Type 0} (eval : Link H → Link H) where
  -- At time 601: the reset is over, and the first bytes are at the ports.
  abbrev pub begun : Link H → Wait (Link H)
  begun u = record {
    time_step = 601;
    before = 1;
    unit = link_steps eval 100 501 (with_bytes 0xA1 0xE4 (link_start eval u));
  }

  abbrev pub second_bytes : Wait (Link H) → Wait (Link H)
  second_bytes = at_link (with_bytes 0xA2 0x5A)

  -- What the program leaves, from the times of its last three waits and the design at the end of them.
  abbrev pub left_at : ℕ → ℕ → ℕ → Link H → Linked H
  left_at acknowledged sent ready u = record {
    lines =
        codes "Setting up"
        ∷ finished (
            time_line (codes "timeStep: ") 501
            ∷ time_line (codes "WA timeStep: ") acknowledged
            ∷ time_line (codes "Sent signal timeStep: ") sent
            ∷ time_line (codes "WA2 timeStep: ") ready
            ∷ []);
    time_step = ready + 500;
    link = link_steps eval 500 ready u;
  }

  -- The states behind the waits of the program, by how many steps each wait has lasted.
  abbrev pub ready_first : Link H → ℕ → Wait (Link H)
  ready_first u a = waiting eval false (begun u) a

  abbrev pub sent_first : Link H → ℕ → ℕ → Wait (Link H)
  sent_first u a b = requested eval (ready_first u a) b

  abbrev pub ready_second : Link H → ℕ → ℕ → ℕ → Wait (Link H)
  ready_second u a b c = second_bytes (waiting eval true (sent_first u a b) c)

  abbrev pub sent_second : Link H → ℕ → ℕ → ℕ → ℕ → Wait (Link H)
  sent_second u a b c d = requested eval (ready_second u a b c) d

  abbrev pub ready_last : Link H → ℕ → ℕ → ℕ → ℕ → ℕ → Wait (Link H)
  ready_last u a b c d e = waiting eval true (sent_second u a b c d) e

  -- Five waits, each as long as it takes the design: until `ready` is high, until it has fallen with the
  -- signal low, until it is high again, and the last two once more with the second pair of bytes.
  pub record Exchange (fuel : ℕ) (u : Link H) (a b c d e : ℕ) : Type 0 where
    pub is_ready : IsFirst (high_at eval false (begun u)) fuel a
    pub is_sent : IsFirst (falls_at eval (ready_first u a)) fuel b
    pub is_done : IsFirst (high_at eval true (sent_first u a b)) fuel c
    pub is_sent_again : IsFirst (falls_at eval (ready_second u a b c)) fuel d
    pub is_done_again : IsFirst (high_at eval true (sent_second u a b c d)) fuel e

  -- What the program leaves with waits of these lengths is this result.
  Ending : Linked H → Link H → ℕ → ℕ → ℕ → ℕ → ℕ → Type 0
  Ending o u a b c d e =
      left_at (ready_second u a b c).time_step (sent_second u a b c d).time_step
        (ready_last u a b c d e).time_step (ready_last u a b c d e).unit
      ≡ o

  ends :
      (fuel : ℕ) (u : Link H) (o : Linked H) (a b c d e : ℕ)
      → Exchange fuel u a b c d e
      → Ending o u a b c d e
      → sync3_main eval fuel u ≡ some o
  unfolding sync3_main Ending
  ends fuel u o a b c d e x h = (waits_for _ _ o (ready_high_lem eval false fuel (begun u))).1 (
    a,
    x.is_ready,
    (waits_for _ _ o ((request_lem eval fuel (ready_first u a)).0)).1 (
      b,
      x.is_sent,
      (waits_for _ _ o (ready_high_lem eval true fuel (sent_first u a b))).1 (
        c,
        x.is_done,
        (waits_for _ _ o ((request_lem eval fuel (ready_second u a b c)).0)).1 (
          d,
          x.is_sent_again,
          (waits_for _ _ o (ready_high_lem eval true fuel (sent_second u a b c d))).1
              (e, x.is_done_again, ap some h),
        ),
      ),
    ),
  )

  ended :
      (fuel : ℕ) (u : Link H) (o : Linked H)
      → sync3_main eval fuel u ≡ some o
      → (a b c d e : ℕ) × Exchange fuel u a b c d e × Ending o u a b c d e
  unfolding sync3_main Ending
  ended fuel u o h =
      let (a, pa, ha) = (waits_for _ _ o (ready_high_lem eval false fuel (begun u))).0 h in
      let (b, pb, hb) = (waits_for _ _ o ((request_lem eval fuel (ready_first u a)).0)).0 ha in
      let (c, pc, hc) = (waits_for _ _ o (ready_high_lem eval true fuel (sent_first u a b))).0 hb in
      let (d, pd, hd) = (waits_for _ _ o ((request_lem eval fuel (ready_second u a b c)).0)).0 hc in
      let (e, pe, he) =
        (waits_for _ _ o (ready_high_lem eval true fuel (sent_second u a b c d))).0 hd in
      (
        a,
        b,
        c,
        d,
        e,
        record {
          is_ready = pa;
          is_sent = pb;
          is_done = pc;
          is_sent_again = pd;
          is_done_again = pe;
        },
        some-injective _ o he,
      )

  times :
      (u : Link H) (a b c d e : ℕ)
      → ((ready_second u a b c).time_step ≡ 601 + (a + b + c))
        × ((sent_second u a b c d).time_step ≡ 601 + (a + b + c + d))
        × ((ready_last u a b c d e).time_step ≡ 601 + (a + b + c + d + e))
  times u a b c d e =
      let t1 = waiting-time eval false (begun u) a in
      let t2 = waiting-time eval true (at_link (sending 0) (ready_first u a)) b in
      let t3 = waiting-time eval true (sent_first u a b) c in
      let t4 = waiting-time eval true (at_link (sending 0) (ready_second u a b c)) d in
      let t5 = waiting-time eval true (sent_second u a b c d) e in
      (omega (arith, t1, t2, t3), omega (arith, t1, t2, t3, t4), omega (arith, t1, t2, t3, t4, t5))

  -- Each request lasts a step or more.
  seen : (fuel : ℕ) (u : Link H) (a b c d e : ℕ) → Exchange fuel u a b c d e → (0 < b) × (0 < d)
  seen fuel u a b c d e x = (
    falls_late eval (ready_first u a) b ((==_iff _ _).0 x.is_ready.2) x.is_sent.2,
    falls_late eval (ready_second u a b c) d ((==_iff _ _).0 x.is_done.2) x.is_sent_again.2,
  )

  at_times :
      (o : Linked H) (u : Link H) (a b c d e : ℕ)
      → left_at
          (ready_second u a b c).time_step
          (sent_second u a b c d).time_step
          (ready_last u a b c d e).time_step
          (ready_last u a b c d e).unit
        ≡ left_at
            (601 + (a + b + c))
            (601 + (a + b + c + d))
            (601 + (a + b + c + d + e))
            (ready_last u a b c d e).unit
  at_times o u a b c d e =
      let (t3, t4, t5) = times u a b c d e in
      let v = (ready_last u a b c d e).unit in
      ap (λ t. left_at t (sent_second u a b c d).time_step (ready_last u a b c d e).time_step v) t3
      ∙ ap (λ t. left_at (601 + (a + b + c)) t (ready_last u a b c d e).time_step v) t4
      ∙ ap (λ t. left_at (601 + (a + b + c)) (601 + (a + b + c + d)) t v) t5

  -- The program of spi_sync3, over any design: with fuel for so many rounds to a wait it ends exactly if
  -- its five waits have lengths within the fuel, each the first number of steps after which what is waited
  -- for holds. What it leaves is then told by the lengths: the lines give the times at which `ready` was
  -- high again, the second signal was sent and `ready` was high for the last time, counted from 601, and the
  -- design has been stepped 500 times more. Both requests last a step or more, so that none is raised
  -- again before the design has been evaluated.
  pub sync3_main_lem :
      (fuel : ℕ) (u : Link H) (o : Linked H)
      → (sync3_main eval fuel u ≡ some o) ↔ (
          (a b c d e : ℕ) × Exchange fuel u a b c d e
          × (0 < b)
          × (0 < d)
          × (left_at
                (601 + (a + b + c))
                (601 + (a + b + c + d))
                (601 + (a + b + c + d + e))
                (ready_last u a b c d e).unit
              ≡ o))
  unfolding Ending
  sync3_main_lem fuel u o = (
    λ h.
        let (a, b, c, d, e, x, q) = ended fuel u o h in
        let (first, second) = seen fuel u a b c d e x in
        (a, b, c, d, e, x, first, second, sym (at_times o u a b c d e) ∙ q),
    λ (a, b, c, d, e, x, first, second, q). ends fuel u o a b c d e x (at_times o u a b c d e ∙ q),
  )
