-- ===== src/Pmmu/Protocol.antt =====
-- The tests of simulation/pmmu, from any clock cycle on: what a load test compares, and what a store
-- test leaves in the memory.
use risc_v_rv32i_multi_cycle.Prelude.{
  ℕ, ◌+◌, ◌*◌, ◌-◌, ◌%◌, ◌/◌, ◌^◌, ◌<◌, ◌≡◌, refl, sym, ap, ◌∙◌, subst, Bool, true, false, not,
  ◌==◌, if◌then◌else◌, arith, w32, ==_iff, List,
}
use Prim.Native.String.{String}
use risc_v_rv32i_multi_cycle.Pmmu.{Pmmu, word_addr, read_data}
use risc_v_rv32i_multi_cycle.Pmmu.Bytes.{AreWords, byte_at, load_value, read_data_lem}
use risc_v_rv32i_multi_cycle.Pmmu.Merging.{
  size_of, stored, store_cell, store_cell-stored, store_cell-AreWords,
}
use risc_v_rv32i_multi_cycle.Pmmu.Bench.{
  verdict, after, Run, Driven, rounds, run_while, driven, assert, load_moves, store_word_moves,
  store_part_moves, load_test, store_word_test, store_part_test,
}
use risc_v_rv32i_multi_cycle.TestBench.{Move, cycles}
use risc_v_rv32i_multi_cycle.Pmmu.Timing.{rounds_shift}

-- The base time of a test that begins `k` clock cycles after the first one's.
abbrev pub base_time : ℕ → ℕ
base_time k = 10 + 20 * k

-- The clock has just risen, and the unit has not been evaluated since.
pub record Rising (t : Pmmu) : Type 0 where
  pub high : t.clk_i ≡ 1
  pub was_low : t.last_clk ≡ 0

rising : Pmmu → Pmmu
rising t = record t { clk_i = 1; last_clk = 0 }

Rising→ : (t : Pmmu) → Rising t → t ≡ rising t
unfolding rising
Rising→ t r =
    ap {A = ℕ} {B = Pmmu} (λ c. record t { clk_i = c }) r.high
    ∙ ap {A = ℕ} {B = Pmmu} (λ c. record t { clk_i = 1; last_clk = c }) r.was_low

-- A loop of so many rounds, from a test's base time on, is one from the first test's base time on.
loop_lem :
    (ms : List (Move Driven)) (k n : ℕ) (s : Run)
    → s.time ≡ base_time k
    → Rising s.top
    → driven ms (base_time k) (base_time k + n) s
      ≡ rounds ms 10 n 10 (record { unit = rising s.top; word = 0 })
unfolding run_while
loop_lem ms k n s e r =
    ap (λ t. rounds ms (base_time k) (base_time k + n - t) t from) e
    ∙ ap (λ j. rounds ms (base_time k) j (base_time k) from) so_many
    ∙ rounds_shift ms k (base_time k) 10 n (base_time k) 10 refl refl from
    ∙ ap {B = Driven} (λ t. rounds ms 10 n 10 (record { unit = t; word = 0 })) (Rising→ s.top r)
  where
    from : Driven
    from = record { unit = s.top; word = 0 }

    so_many : base_time k + n - base_time k ≡ n
    so_many = omega arith

-- The unit behind the loop of a load test.
loaded : ℕ → ℕ → Pmmu → Pmmu
loaded f a t = record t {
  clk_i = 1;
  last_clk = 0;
  funct3 = f;
  byte_addr_i = a;
  mrd_i = 0;
  storage = t.mem (word_addr a);
  rd_o = read_data f a 0 (t.mem (word_addr a));
}

load_rounds :
    (f word selector : ℕ) (t : Pmmu)
    → t.mwr_i ≡ 1
    → rounds (load_moves f word selector) 10 20 10 (record { unit = rising t; word = 0 })
      ≡ record { unit = loaded f ((word * 4 + selector) % w32) t; word = word }
unfolding cycles rising loaded
load_rounds f word selector t h = rw h refl

-- The unit behind the loop of a test that stores a part of a word: it has been read, and written.
part_stored : ℕ → ℕ → ℕ → Pmmu → Pmmu
part_stored f a v t = record t {
  clk_i = 1;
  last_clk = 0;
  funct3 = f;
  byte_addr_i = a;
  wd_i = v;
  mwr_i = 1;
  mrd_i = 1;
  storage = t.mem (word_addr a);
  rd_o = t.mem (word_addr a);
  mem = store_cell f a v t.mem;
}

store_part_rounds :
    (f word selector v : ℕ) (t : Pmmu)
    → rounds (store_part_moves f word selector v) 10 40 10 (record { unit = rising t; word = 0 })
      ≡ record { unit = part_stored f ((word * 4 + selector) % w32) (v % w32) t; word = word }
unfolding cycles rising part_stored
store_part_rounds f word selector v t = refl

-- The unit behind the loop of the test that stores a word: `mwr_i` is left low, and the memory's
-- output register has the word from before if `mrd_i` was low.
word_stored : ℕ → ℕ → Pmmu → Pmmu
word_stored a v t =
    let w = if t.mrd_i == 0 then t.mem (word_addr a) else t.storage in
    record t {
      clk_i = 1;
      last_clk = 0;
      funct3 = 2;
      byte_addr_i = a;
      wd_i = v;
      mwr_i = 0;
      storage = w;
      rd_o = read_data 2 a t.mrd_i w;
      mem = store_cell 2 a v t.mem;
    }

store_word_rounds :
    (word v : ℕ) (t : Pmmu)
    → rounds (store_word_moves word v) 10 20 10 (record { unit = rising t; word = 0 })
      ≡ record { unit = word_stored ((word * 4 + 0) % w32) (v % w32) t; word = word }
unfolding cycles rising word_stored
store_word_rounds word v t = refl

-- A run at the base time of a test, in the clock's phase.
pub record Ready (k : ℕ) (s : Run) : Type 0 where
  pub at_base : s.time ≡ base_time k
  pub rising : Rising s.top

address :
    (word selector : ℕ)
    → word < 1024
    → selector < 4
    → (word * 4 + selector) % w32 ≡ word * 4 + selector
address word selector h k = omega arith

-- A test has compared a value, failed if it is not what was expected, and left the unit as given, at
-- the base time of the next test.
pub record Judged (got expected k : ℕ) (t : Pmmu) (s : Run) : Type 0 where
  pub failed : s.failed ≡ not (got == expected)
  pub top : s.top ≡ t
  pub ready : Ready k s

judged_at :
    (b : Bool) (message : String) (got k : ℕ) (s : Run)
    → Ready k s
    → ((verdict b message got s).failed ≡ not b)
      × ((verdict b message got s).top ≡ s.top)
      × Ready k (verdict b message got s)
judged_at true message got k s r = (refl, refl, record { at_base = r.at_base; rising = r.rising })
judged_at false message got k s r = (refl, refl, record { at_base = r.at_base; rising = r.rising })

-- What the loop of a test leaves is what the run has behind the test.
test_lem :
    (message : String) (expected k n : ℕ) (s : Run) (ms : List (Move Driven)) (got : Driven → ℕ)
    (d : Driven)
    → Ready k s
    → rounds ms 10 (20 * n) 10 (record { unit = rising s.top; word = 0 }) ≡ d
    → Rising d.unit
    → let r = driven ms (base_time k) (base_time k + 20 * n) s in
      Judged
        (got d)
        expected
        (k + n)
        d.unit
        (assert message expected (got r) (after (base_time k + 20 * n) r s))
test_lem message expected k n s ms got d ready e up =
    subst
      (λ r.
        Judged (got d) expected (k + n) d.unit
          (assert message expected (got r) (after (base_time k + 20 * n) r s)))
      (sym (loop_lem ms k (20 * n) s ready.at_base ready.rising ∙ e)) judged
  where
    left : Run
    left = after (base_time k + 20 * n) d s

    left-Ready : Ready (k + n) left
    left-Ready = record { at_base = omega (arith, ready.at_base); rising = up }

    judged : Judged (got d) expected (k + n) d.unit (assert message expected (got d) left)
    judged =
        let (f, t, r) = judged_at (got d == expected) message (got d) (k + n) left left-Ready in
        record { failed = f; top = t; ready = r }

-- A load test, begun at any of the base times with the memory's write line high, on a memory of 32-bit
-- words and an address within its 4096 bytes, compares the value
-- that the bytes of the memory have at its address, rounded down to a multiple of the size for a
-- halfword or a word (the unit ignores the low bits), and changes no cell.
pub load_test_lem :
    (f word selector expected k : ℕ) (message : String) (s : Run)
    → f < 8
    → word < 1024
    → selector < 4
    → AreWords s.top.mem
    → s.top.mwr_i ≡ 1
    → Ready k s
    → let s' = load_test f word selector expected message (base_time k) 20 s in
      (s'.failed ≡ not (load_value f s.top.mem (word * 4 + selector) == expected))
      × (s'.top.mem ≡ s.top.mem)
      × (s'.top.mwr_i ≡ 1)
      × Ready (k + 1) s'
unfolding loaded
load_test_lem f word selector expected k message s hf hw hs hm high ready =
    let judged =
      test_lem message expected k 1 s (load_moves f word selector) (λ d. d.unit.rd_o)
        (record { unit = loaded f a s.top; word = word }) ready
        (load_rounds f word selector s.top high) (record { high = refl; was_low = refl }) in
    (
      judged.failed ∙ ap (λ v. not (v == expected)) value,
      ap (λ t. t.mem) judged.top,
      ap (λ t. t.mwr_i) judged.top ∙ high,
      judged.ready,
    )
  where
    a : ℕ
    a = (word * 4 + selector) % w32

    value : read_data f a 0 (s.top.mem (word_addr a)) ≡ load_value f s.top.mem (word * 4 + selector)
    value =
        ap (λ b. read_data f b 0 (s.top.mem (word_addr b))) (address word selector hw hs)
        ∙ read_data_lem f s.top.mem (word * 4 + selector) hf hm (omega arith)

-- A test that stores a byte or a halfword of a 32-bit value in a memory of 32-bit words, at an address
-- within its 4096 bytes, begun at any of the base times: the bytes from its
-- address on, rounded down to a multiple of the size (the unit ignores the lowest bit for a halfword),
-- as many as the size has, are then those of the value, and all others are as before; the test fails
-- exactly if the cell is not what it expects.
pub store_part_test_lem :
    (f word selector v expected k : ℕ) (message : String) (s : Run)
    → f < 2
    → word < 1024
    → selector < 4
    → v < 2 ^ 32
    → AreWords s.top.mem
    → Ready k s
    → let s' = store_part_test f word selector v expected message (base_time k) 40 s in
      let a = word * 4 + selector in
      ((x : ℕ)
        → byte_at s'.top.mem x ≡ stored (size_of f) (a / size_of f * size_of f) v s.top.mem x)
      × (s'.failed ≡ not (s'.top.mem word == expected))
      × AreWords s'.top.mem
      × (s'.top.mwr_i ≡ 1)
      × Ready (k + 2) s'
unfolding part_stored
store_part_test_lem f word selector v expected k message s hf hw hs hv hm ready =
    let judged =
      test_lem message expected k 2 s (store_part_moves f word selector v) (λ d. d.unit.mem d.word)
        (record { unit = part_stored f a (v % w32) s.top; word = word }) ready
        (store_part_rounds f word selector v s.top) (record { high = refl; was_low = refl }) in
    let after_mem = ap (λ t. t.mem) judged.top ∙ cell in
    (
      (λ x.
          ap (λ m. byte_at m x) after_mem
          ∙ store_cell-stored f b v x s.top.mem (omega arith) (omega arith) hm),
      judged.failed ∙ ap (λ t. not (t.mem word == expected)) (sym judged.top),
      subst AreWords (sym after_mem) (store_cell-AreWords f b v s.top.mem hv hm),
      ap (λ t. t.mwr_i) judged.top,
      judged.ready,
    )
  where
    a : ℕ
    a = (word * 4 + selector) % w32

    b : ℕ
    b = word * 4 + selector

    cell : store_cell f a (v % w32) s.top.mem ≡ store_cell f b v s.top.mem
    cell =
        ap (λ x. store_cell f x (v % w32) s.top.mem) (address word selector hw hs)
        ∙ ap (λ x. store_cell f b x s.top.mem) (omega arith)

-- The test that stores a 32-bit value in a memory of 32-bit words, in one of its 1024 cells, begun at any
-- of the base times: the four bytes from the word's
-- address on are then those of the value, and all others are as before; the test fails exactly if the
-- value is not what it expects. It leaves `mwr_i` low.
pub store_word_test_lem :
    (word v expected k : ℕ) (message : String) (s : Run)
    → word < 1024
    → v < 2 ^ 32
    → AreWords s.top.mem
    → Ready k s
    → let s' = store_word_test word v expected message (base_time k) 20 s in
      ((x : ℕ) → byte_at s'.top.mem x ≡ stored 4 (word * 4) v s.top.mem x)
      × (s'.failed ≡ not (v == expected))
      × AreWords s'.top.mem
      × (s'.top.mwr_i ≡ 0)
      × Ready (k + 1) s'
unfolding word_stored
store_word_test_lem word v expected k message s hw hv hm ready =
    let judged =
      test_lem message expected k 1 s (store_word_moves word v) (λ d. d.unit.mem d.word)
        (record { unit = word_stored a (v % w32) s.top; word = word }) ready
        (store_word_rounds word v s.top) (record { high = refl; was_low = refl }) in
    let after_mem = ap (λ t. t.mem) judged.top ∙ cell in
    (
      (λ x.
          ap (λ m. byte_at m x) after_mem
          ∙ store_cell-stored 2 (word * 4) v x s.top.mem (omega arith) (omega arith) hm
          ∙ ap (λ y. stored 4 y v s.top.mem x) (omega arith)),
      judged.failed ∙ ap (λ y. not (y == expected)) written,
      subst AreWords (sym after_mem) (store_cell-AreWords 2 (word * 4) v s.top.mem hv hm),
      ap (λ t. t.mwr_i) judged.top,
      judged.ready,
    )
  where
    a : ℕ
    a = (word * 4 + 0) % w32

    cell : store_cell 2 a (v % w32) s.top.mem ≡ store_cell 2 (word * 4) v s.top.mem
    cell =
        ap (λ x. store_cell 2 x (v % w32) s.top.mem) (omega arith)
        ∙ ap (λ x. store_cell 2 (word * 4) x s.top.mem) (omega arith)

    written : store_cell 2 a (v % w32) s.top.mem word ≡ v
    written =
        ap (λ m. m word) cell
        ∙ ap (λ c. if c then v else s.top.mem word)
            ((==_iff (word_addr (word * 4)) word).1 (omega arith))
