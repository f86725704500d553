-- ===== src/Pmmu/Merging.antt =====
-- The part of a word that a store of modules/Pmmu.sv replaces, byte by byte.
use risc_v_rv32i_multi_cycle.Prelude.{
  ℕ, zero, suc, ◌+◌, ◌-◌, ◌*◌, ◌/◌, ◌%◌, ◌^◌, ◌<◌, ◌≡◌, ◌≢◌, refl, ap, ◌∙◌, Bool, true, ◌&&◌, ltb,
  leb, ◌==◌, if◌then◌else◌, arith, Bool-cases, ==_iff, false, inl, inr,
}
use risc_v_rv32i_multi_cycle.Core.{Unpacked, update}
use risc_v_rv32i_multi_cycle.Pmmu.{
  slice, concat, mux2, mux4, word_addr, storage_data_in, is_byte_size, is_halfword_size,
}
use risc_v_rv32i_multi_cycle.Pmmu.Bytes.{AreWords, byte_in, byte_at}

-- How many bytes a store writes, by its code.
abbrev pub size_of : ℕ → ℕ
size_of f = if f == 0 then 1 else if f == 1 then 2 else 4

-- The byte `j` of a word when the `n` bytes from `s` on are those of `v`.
abbrev replaced : ℕ → ℕ → ℕ → ℕ → ℕ → ℕ
replaced n s v w j = if leb s j && ltb j (s + n) then byte_in v (j - s) else byte_in w j

below_four : (P : ℕ → Type 0) → P 0 → P 1 → P 2 → P 3 → (j : ℕ) → j < 4 → P j
below_four P a b c d zero h = a
below_four P a b c d (suc zero) h = b
below_four P a b c d (suc (suc zero)) h = c
below_four P a b c d (suc (suc (suc zero))) h = d
below_four P a b c d (suc (suc (suc (suc j)))) h = absurd (omega arith)

-- The multiplexers of the stores, by the selector.
abbrev byte_mux : ℕ → ℕ → ℕ → ℕ
byte_mux s v w =
    mux4 s (concat (slice 31 8 w) 8 (slice 7 0 v))
      (concat (concat (slice 31 16 w) 8 (slice 7 0 v)) 8 (slice 7 0 w))
      (concat (concat (slice 31 24 w) 8 (slice 7 0 v)) 16 (slice 15 0 w))
      (concat (slice 7 0 v) 24 (slice 23 0 w))

abbrev half_mux : ℕ → ℕ → ℕ → ℕ
half_mux j v w =
    mux2 j (concat (slice 31 16 w) 16 (slice 15 0 v)) (concat (slice 15 0 v) 16 (slice 15 0 w))

module _ (v w : ℕ) (h : w < 2 ^ 32) where
  byte_merges : (s : ℕ) → s < 4 → (j : ℕ) → j < 4 → byte_in (byte_mux s v w) j ≡ replaced 1 s v w j
  byte_merges =
      below_four (λ s. (j : ℕ) → j < 4 → byte_in (byte_mux s v w) j ≡ replaced 1 s v w j)
        (below_four _ (omega arith) (omega arith) (omega arith) (omega arith))
        (below_four _ (omega arith) (omega arith) (omega arith) (omega arith))
        (below_four _ (omega arith) (omega arith) (omega arith) (omega arith))
        (below_four _ (omega arith) (omega arith) (omega arith) (omega arith))

  half_merges :
      (s : ℕ)
      → s < 4
      → (j : ℕ) → j < 4
      → byte_in (half_mux (s / 2) v w) j ≡ replaced 2 (s / 2 * 2) v w j
  half_merges =
      below_four
        (λ s. (j : ℕ) → j < 4 → byte_in (half_mux (s / 2) v w) j ≡ replaced 2 (s / 2 * 2) v w j)
        (below_four _ (omega arith) (omega arith) (omega arith) (omega arith))
        (below_four _ (omega arith) (omega arith) (omega arith) (omega arith))
        (below_four _ (omega arith) (omega arith) (omega arith) (omega arith))
        (below_four _ (omega arith) (omega arith) (omega arith) (omega arith))

  word_merges : (j : ℕ) → j < 4 → byte_in v j ≡ replaced 4 0 v w j
  word_merges = below_four _ refl refl refl refl

  -- The word that the unit gives to the memory, byte by byte.
  cell_replaced :
      (f a j : ℕ)
      → f < 3
      → j < 4
      → byte_in (storage_data_in f a v w) j
        ≡ replaced (size_of f) (a % 4 / size_of f * size_of f) v w j
  cell_replaced zero a j hf hj =
      byte_merges (slice 1 0 a) (omega arith) j hj ∙ ap (λ s. replaced 1 s v w j) (omega arith)
  cell_replaced (suc zero) a j hf hj =
      ap (λ s. byte_in (half_mux s v w) j) (omega arith) ∙ half_merges (a % 4) (omega arith) j hj
  cell_replaced (suc (suc zero)) a j hf hj =
      word_merges j hj ∙ ap (λ s. replaced 4 s v w j) (omega arith)
  cell_replaced (suc (suc (suc f))) a j hf hj = absurd (omega arith)

-- The bytes of a memory when the `n` bytes from an address on are those of `v`.
abbrev pub stored : ℕ → ℕ → ℕ → Unpacked → ℕ → ℕ
stored n a v m x = if leb a x && ltb x (a + n) then byte_in v (x - a) else byte_at m x

inside_at :
    (n s b v x : ℕ) (m : Unpacked)
    → b ≡ x / 4 * 4 + s
    → replaced n s v (m (x / 4)) (x % 4) ≡ stored n b v m x
inside_at n s b v x m e =
    ap (λ c. if c then byte_in v (x % 4 - s) else byte_at m x) test
    ∙ ap (λ d. if leb b x && ltb x (b + n) then byte_in v d else byte_at m x) (omega arith)
  where
    test : (leb s (x % 4) && ltb (x % 4) (s + n)) ≡ (leb b x && ltb x (b + n))
    test = ground arith

inside :
    (f a v x : ℕ) (m : Unpacked)
    → f < 3
    → x / 4 ≡ a / 4
    → replaced (size_of f) (a % 4 / size_of f * size_of f) v (m (x / 4)) (x % 4)
      ≡ stored (size_of f) (a / size_of f * size_of f) v m x
inside zero a v x m hf e = inside_at 1 _ _ v x m (omega arith)
inside (suc zero) a v x m hf e = inside_at 2 _ _ v x m (omega arith)
inside (suc (suc zero)) a v x m hf e = inside_at 4 _ _ v x m (omega arith)
inside (suc (suc (suc f))) a v x m hf e = absurd (omega arith)

outside :
    (f a v x : ℕ) (m : Unpacked)
    → f < 3
    → x / 4 ≢ a / 4
    → byte_at m x ≡ stored (size_of f) (a / size_of f * size_of f) v m x
outside zero a v x m hf e = ground arith
outside (suc zero) a v x m hf e = ground arith
outside (suc (suc zero)) a v x m hf e = ground arith
outside (suc (suc (suc f))) a v x m hf e = absurd (omega arith)

-- The cell that a store writes, in a memory.
abbrev pub store_cell : ℕ → ℕ → ℕ → Unpacked → Unpacked
store_cell f a v m = update m (word_addr a) (storage_data_in f a v (m (word_addr a)))

-- A store writes the bytes of the value from its address on, rounded down to a multiple of its size, and
-- no others.
pub store_cell-stored :
    (f a v x : ℕ) (m : Unpacked)
    → f < 3
    → a < 4096
    → AreWords m
    → byte_at (store_cell f a v m) x ≡ stored (size_of f) (a / size_of f * size_of f) v m x
store_cell-stored f a v x m hf ha hm = elim (Bool-cases (word_addr a == x / 4)) [
  | inl e ↦
      let same : word_addr a ≡ x / 4 = (==_iff _ _).0 e in
      ap (λ c. byte_in (if c then storage_data_in f a v (m (word_addr a)) else m (x / 4)) (x % 4)) e
      ∙ cell_replaced v (m (word_addr a)) (hm (word_addr a)) f a (x % 4) hf (omega arith)
      ∙ ap (λ i. replaced (size_of f) (a % 4 / size_of f * size_of f) v (m i) (x % 4)) same
      ∙ inside f a v x m hf (omega (arith, same))
  | inr e ↦
      ap (λ c. byte_in (if c then storage_data_in f a v (m (word_addr a)) else m (x / 4)) (x % 4)) e
      ∙ outside f a v x m hf (other e)
]
  where
    other : (word_addr a == x / 4) ≡ false → x / 4 ≢ a / 4
    other e q = absurd (ground arith)

either : {n : ℕ} (b : Bool) (x y : ℕ) → x < n → y < n → (if b then x else y) < n
either true x y hx hy = hx
either false x y hx hy = hy

-- A memory of words is one after a store.
pub store_cell-AreWords :
    (f a v : ℕ) (m : Unpacked) → v < 2 ^ 32 → AreWords m → AreWords (store_cell f a v m)
store_cell-AreWords f a v m hv hm i =
    either (word_addr a == i) (storage_data_in f a v w) (m i) written (hm i)
  where
    w : ℕ
    w = m (word_addr a)

    hw : w < 2 ^ 32
    hw = hm (word_addr a)

    bytes : byte_mux (slice 1 0 a) v w < 2 ^ 32
    bytes =
        below_four (λ s. byte_mux s v w < 2 ^ 32) (omega arith) (omega arith) (omega arith)
          (omega arith) (slice 1 0 a) (omega arith)

    written : storage_data_in f a v w < 2 ^ 32
    written = either (is_byte_size f) (byte_mux (slice 1 0 a) v w) _ bytes (
        either (is_halfword_size f) (half_mux (slice 1 1 a) v w) v
          (either (slice 1 1 a == 0) _ _ (omega arith) (omega arith)) hv)
