-- ===== src/Utils/Binary.antt =====
-- `int_to_bin` (simulation/ranger_console/utils.cpp).
use risc_v_rv32i_multi_cycle.Prelude.{
  ℕ, zero, suc, ◌+◌, ◌-◌, ◌/◌, ◌%◌, ◌^◌, ◌<◌, ◌≡◌, some, arith, length, get_elem?, Bytes, ℤ, to_u32,
  refl, ap,
}
use risc_v_rv32i_multi_cycle.Utils.{bits, int_to_bin}

length-bits : (n v : ℕ) → length (bits n v) ≡ n
unfolding bits
length-bits zero v = refl
length-bits (suc n) v = ap suc (length-bits n v)

get_elem?-bits :
    (n i v : ℕ) → i < n → get_elem? (bits n v) i ≡ some (b'0' + v / 2 ^ (n - 1 - i) % 2)
unfolding bits
get_elem?-bits zero i v h = elim h [ ]
get_elem?-bits (suc n) zero v h = let e : suc n - 1 - 0 ≡ n = omega arith in rw e
get_elem?-bits (suc n) (suc i) v h =
    let e : suc n - 1 - suc i ≡ n - 1 - i = omega arith in rw e (get_elem?-bits n i v (omega arith))

-- `int_to_bin` writes 32 characters whatever the header, and the one at position `i` from the
-- left is bit 31 - i of the value.
get_elem?-int_to_bin :
    (v : ℤ) (header : Bytes) (i : ℕ)
    → i < 32
    → (length (int_to_bin v header) ≡ 32)
      × (get_elem? (int_to_bin v header) i ≡ some (b'0' + to_u32 v / 2 ^ (31 - i) % 2))
unfolding int_to_bin
get_elem?-int_to_bin v header i h = (length-bits 32 (to_u32 v), get_elem?-bits 32 i (to_u32 v) h)
