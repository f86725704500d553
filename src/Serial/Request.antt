-- ===== src/Serial/Request.antt =====
-- What a request of the programs of spi_sync and spi_sync3 waits for, over any design.
use risc_v_rv32i_multi_cycle.Prelude.{
  ℕ, zero, suc, ◌+◌, ◌≤◌, ◌<◌, ◌≡◌, refl, ap, ◌∙◌, sym, Bool, true, false, ◌&&◌, ◌==◌, none, some,
  ◌>>=◌, arith, ◌↔◌, if◌then◌else◌,
}
use risc_v_rv32i_multi_cycle.TestBench.{cycles}
use risc_v_rv32i_multi_cycle.TestBench.Loops.{
  loop_until, iterate, iterate_last, loop_until-First, loop_until-none, bind_some, bind_some_inv,
  bind_none_inv,
}
use risc_v_rv32i_multi_cycle.TestBench.Waits.{Wait, wait_round, has_fallen, is_high}
use risc_v_rv32i_multi_cycle.Serial.{Link, link_step, link_steps}
use risc_v_rv32i_multi_cycle.Serial.Handshake.{at_link, sending, ready_falls, ready_high, request}

-- Of the numbers from 0 on, one within a bound is the first with a property.
abbrev pub IsFirst : (ℕ → Bool) → ℕ → ℕ → Type 0
IsFirst p bound k = (k ≤ bound) × ((j : ℕ) → j < k → p j ≡ false) × (p k ≡ true)

module _ {H : Type 0} (eval : Link H → Link H) where
  -- A wait that has gone on for so many steps of the design; it notes what `ready` was a step before, or
  -- does not.
  abbrev pub waiting : Bool → Wait (Link H) → ℕ → Wait (Link H)
  waiting notes s zero = s
  waiting notes s (suc k) = record {
    time_step = s.time_step + suc k;
    before = if notes then (link_steps eval k s.time_step s.unit).ready else s.before;
    unit = link_steps eval (suc k) s.time_step s.unit;
  }

  steps_last :
      (k t : ℕ) (u : Link H)
      → link_steps eval (suc k) t u ≡ link_step eval (t + k) (link_steps eval k t u)
  unfolding link_steps cycles
  steps_last zero t u = ap (λ j. link_step eval j u) (omega arith)
  steps_last (suc k) t u =
      steps_last k (suc t) (link_step eval t u)
      ∙ ap (λ j. link_step eval j (link_steps eval k (suc t) (link_step eval t u))) (omega arith)

  at_state : ℕ → ℕ → Link H → Wait (Link H)
  at_state t b u = record { time_step = t; before = b; unit = u }

  same_state : (t t' b : ℕ) (u u' : Link H) → t ≡ t' → u ≡ u' → at_state t b u ≡ at_state t' b u'
  same_state t t' b u u' e h = ap (λ j. at_state j b u) e ∙ ap (at_state t' b) h

  -- A round goes on for one step more.
  next_waiting :
      (notes : Bool) (k : ℕ) (s : Wait (Link H))
      → wait_round (link_step eval) (λ u. u.ready) notes (waiting notes s k)
        ≡ waiting notes s (suc k)
  unfolding link_steps cycles at_state
  next_waiting true zero s = refl
  next_waiting false zero s = refl
  next_waiting true (suc k) s =
      same_state _ _ (link_steps eval (suc k) s.time_step s.unit).ready _ _ (omega arith)
        (sym (steps_last (suc k) s.time_step s.unit))
  next_waiting false (suc k) s =
      same_state _ _ s.before _ _ (omega arith) (sym (steps_last (suc k) s.time_step s.unit))

  module _ (done : Wait (Link H) → Bool) (notes : Bool) where
    abbrev wait_step : Wait (Link H) → Wait (Link H)
    wait_step = wait_round (link_step eval) (λ u. u.ready) notes

    -- The rounds of a loop are steps of the design.
    rounds-waiting : (k : ℕ) (s : Wait (Link H)) → iterate done wait_step k s ≡ waiting notes s k
    unfolding iterate
    rounds-waiting zero s = refl
    rounds-waiting (suc k) s =
        iterate_last done wait_step k s ∙ ap wait_step (rounds-waiting k s) ∙ next_waiting notes k s

    done-waiting :
        (k : ℕ) (s : Wait (Link H)) → done (iterate done wait_step k s) ≡ done (waiting notes s k)
    done-waiting k s = ap done (rounds-waiting k s)

    -- A wait ends behind the first number of steps after which its test holds,
    pub wait-IsFirst :
        (fuel : ℕ) (s r : Wait (Link H))
        → (loop_until done wait_step fuel s ≡ some r)
          ↔ ((k : ℕ) × IsFirst (λ j. done (waiting notes s j)) fuel k × (r ≡ waiting notes s k))
    wait-IsFirst fuel s r = (
      λ h.
          let (k, l, f, d, w) = (loop_until-First done wait_step fuel s r).0 h in
          (
            k,
            (l, λ j m. sym (done-waiting j s) ∙ f j m, sym (done-waiting k s) ∙ d),
            w ∙ rounds-waiting k s,
          ),
      λ (k, (l, f, d), w). (loop_until-First done wait_step fuel s r).1 (
        k,
        l,
        λ j m. done-waiting j s ∙ f j m,
        done-waiting k s ∙ d,
        w ∙ sym (rounds-waiting k s),
      ),
    )

    -- and uses up its fuel if there is none within it.
    pub wait-none :
        (fuel : ℕ) (s : Wait (Link H))
        → (loop_until done wait_step fuel s ≡ none)
          ↔ ((j : ℕ) → j ≤ fuel → done (waiting notes s j) ≡ false)
    wait-none fuel s = (
      λ h j l. sym (done-waiting j s) ∙ (loop_until-none done wait_step fuel s).0 h j (omega arith),
      λ f. (loop_until-none done wait_step fuel s).1 (λ j l. done-waiting j s ∙ f j (omega arith)),
    )

  -- So many steps after the signal has been lowered, `ready` has just fallen.
  abbrev pub falls_at : Wait (Link H) → ℕ → Bool
  falls_at s k =
      let w = waiting true (at_link (sending 0) s) k in w.before == 1 && w.unit.ready == 0

  -- The state in which a request ends so many steps after it began: the signal is raised again.
  abbrev pub requested : Wait (Link H) → ℕ → Wait (Link H)
  requested s k = at_link (sending 1) (waiting true (at_link (sending 0) s) k)

  -- A request, over any design and from any state: with fuel for so many rounds it ends in a state
  -- exactly if there is a first number of steps, within the fuel, after which `ready` has just fallen, and
  -- the state is then the one that many steps later with the signal raised again; it uses up its fuel
  -- exactly if `ready` falls after no number of steps within the fuel. What `ready` was before the first
  -- step is what the program has noted.
  pub request_lem :
      (fuel : ℕ) (s : Wait (Link H))
      → ((r : Wait (Link H))
          → (request eval fuel s ≡ some r)
            ↔ ((k : ℕ) × IsFirst (falls_at s) fuel k × (r ≡ requested s k)))
        × ((request eval fuel s ≡ none) ↔ ((j : ℕ) → j ≤ fuel → falls_at s j ≡ false))
  unfolding request ready_falls
  request_lem fuel s = (λ r. (ended r, ends r), (exhausted, exhausts))
    where
      s0 : Wait (Link H)
      s0 = at_link (sending 0) s

      edge : Wait (Link H) → Bool
      edge = has_fallen (link_step eval) (λ u. u.ready)

      ended :
          (r : Wait (Link H))
          → request eval fuel s ≡ some r
          → (k : ℕ) × IsFirst (falls_at s) fuel k × (r ≡ requested s k)
      ended r h =
          let (t, e, q) = bind_some_inv (ready_falls eval fuel s0) (at_link (sending 1)) r h in
          let (k, f, w) = (wait-IsFirst edge true fuel s0 t).0 e in
          (k, f, sym q ∙ ap (at_link (sending 1)) w)

      ends :
          (r : Wait (Link H))
          → (k : ℕ) × IsFirst (falls_at s) fuel k × (r ≡ requested s k)
          → request eval fuel s ≡ some r
      ends r (k, f, w) =
          bind_some (ready_falls eval fuel s0) _ (waiting true s0 k) r
            ((wait-IsFirst edge true fuel s0 _).1 (k, f, refl)) (ap some (sym w))

      exhausted : request eval fuel s ≡ none → (j : ℕ) → j ≤ fuel → falls_at s j ≡ false
      exhausted h =
          (wait-none edge true fuel s0).0
            (bind_none_inv (ready_falls eval fuel s0) (at_link (sending 1)) h)

      exhausts : ((j : ℕ) → j ≤ fuel → falls_at s j ≡ false) → request eval fuel s ≡ none
      exhausts f =
          ap (λ o. o >>= λ t. some (at_link (sending 1) t)) ((wait-none edge true fuel s0).1 f)

  -- So many steps after a state `ready` is high.
  abbrev pub high_at : Bool → Wait (Link H) → ℕ → Bool
  high_at notes s k = (waiting notes s k).unit.ready == 1

  pub ready_high_lem :
      (notes : Bool) (fuel : ℕ) (s r : Wait (Link H))
      → (ready_high eval fuel notes s ≡ some r)
        ↔ ((k : ℕ) × IsFirst (high_at notes s) fuel k × (r ≡ waiting notes s k))
  unfolding ready_high
  ready_high_lem notes = wait-IsFirst (is_high (link_step eval) (λ u. u.ready)) notes

  pub waiting-time :
      (notes : Bool) (s : Wait (Link H)) (k : ℕ) → (waiting notes s k).time_step ≡ s.time_step + k
  waiting-time notes s zero = omega arith
  waiting-time notes s (suc k) = refl

  -- A request that is made while `ready` is high lasts a step or more.
  pub falls_late : (s : Wait (Link H)) (k : ℕ) → s.unit.ready ≡ 1 → falls_at s k ≡ true → 0 < k
  falls_late s zero h f = absurd (ground (arith, h, f))
  falls_late s (suc k) h f = omega arith
