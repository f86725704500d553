-- ===== src/Pmmu/RoundTrip.antt =====
-- The tests of simulation/pmmu one after the other: a load behind a store.
use risc_v_rv32i_multi_cycle.Prelude.{
  ℕ, zero, suc, ◌+◌, ◌*◌, ◌-◌, ◌%◌, ◌/◌, ◌^◌, ◌<◌, ◌≡◌, ap, ◌∙◌, true, false, not, if◌then◌else◌,
  arith, ==_iff, leb, ltb, ◌&&◌,
}
use Prim.Native.String.{String}
use risc_v_rv32i_multi_cycle.Core.{Unpacked}
use risc_v_rv32i_multi_cycle.Pmmu.Bytes.{AreWords, byte_in, byte_at, load_value}
use risc_v_rv32i_multi_cycle.Pmmu.Merging.{size_of, stored}
use risc_v_rv32i_multi_cycle.Pmmu.Bench.{Run, load_test, store_part_test}
use risc_v_rv32i_multi_cycle.Pmmu.Protocol.{Ready, base_time, load_test_lem, store_part_test_lem}

stored_at : (n b v i : ℕ) (m : Unpacked) → i < n → stored n b v m (b + i) ≡ byte_in v i
stored_at n b v i m h =
    ap (λ c. if c then byte_in v (b + i - b) else byte_at m (b + i)) inside ∙ ap (byte_in v) back
  where
    inside : (leb b (b + i) && ltb (b + i) (b + n)) ≡ true
    inside = ground arith

    back : b + i - b ≡ i
    back = omega arith

-- The value that an unsigned load finds where a store of its size has been.
found :
    (f a v : ℕ) (m n : Unpacked)
    → f < 2
    → ((x : ℕ) → byte_at n x ≡ stored (size_of f) (a / size_of f * size_of f) v m x)
    → a % size_of f ≡ 0
    → load_value (4 + f) n a ≡ v % 256 ^ size_of f
found zero a v m n hf h ha =
    ap (byte_at n) here
    ∙ h (a / 1 * 1 + 0)
    ∙ stored_at 1 (a / 1 * 1) v 0 m (omega arith)
    ∙ omega arith
  where
    here : a ≡ a / 1 * 1 + 0
    here = omega arith
found (suc zero) a v m n hf h ha =
    ap (λ x. x + 2 ^ 8 * byte_at n (b + 1)) low
    ∙ ap (λ x. byte_in v 0 + 2 ^ 8 * x) (h (b + 1) ∙ stored_at 2 b v 1 m (omega arith))
    ∙ omega arith
  where
    b : ℕ
    b = a / 2 * 2

    here : b ≡ b + 0
    here = omega arith

    low : byte_at n b ≡ byte_in v 0
    low = ap (byte_at n) here ∙ h (b + 0) ∙ stored_at 2 b v 0 m (omega arith)
found (suc (suc f)) a v m n hf h ha = absurd (omega arith)

aligned : (f w s : ℕ) → f < 2 → s % size_of f ≡ 0 → (w * 4 + s) % size_of f ≡ 0
aligned zero w s hf h = omega arith
aligned (suc zero) w s hf h = omega arith
aligned (suc (suc f)) w s hf h = absurd (omega arith)

-- A byte or a halfword of a 32-bit value that a test, begun at any of the base times, has stored in a memory
-- of 32-bit words, at an address within its 4096 bytes that its size divides, is what an unsigned load test
-- of its size right behind it finds: the load test does not fail.
pub load_test-store_part_test :
    (f word selector v expected k : ℕ) (message message' : String) (s : Run)
    → f < 2
    → word < 1024
    → selector < 4
    → selector % size_of f ≡ 0
    → v < 2 ^ 32
    → AreWords s.top.mem
    → Ready k s
    → (load_test
        (4 + f)
        word
        selector
        (v % 256 ^ size_of f)
        message'
        (base_time (k + 2))
        20
        (store_part_test f word selector v expected message (base_time k) 40 s)).failed
      ≡ false
load_test-store_part_test f word selector v expected k message message' s hf hw hs ha hv hm ready =
    let s' : Run = store_part_test f word selector v expected message (base_time k) 40 s in
    let (bytes, _, words, high, next) =
      store_part_test_lem f word selector v expected k message s hf hw hs hv hm ready in
    let (failed, _, _, _) =
      load_test_lem (4 + f) word selector (v % 256 ^ size_of f) (k + 2) message' s' (omega arith) hw
        hs words high next in
    failed
    ∙ ap not (
        (==_iff _ _).1 (
          found f (word * 4 + selector) v s.top.mem s'.top.mem hf bytes
            (aligned f word selector hf ha)))
