-- ===== src/Bench/Load/Image.antt =====
-- Program images: the lines of an image of the memory, and what loading them gives.
use risc_v_rv32i_multi_cycle.Prelude.{
  ℕ, zero, suc, ◌≤◌, ◌<◌, ◌≡◌, refl, ap, ◌∙◌, true, some, List, [], ◌∷◌, ◌++◌, ◌==◌, ◌>>=◌,
  to_u32-signed32, length, take, Bytes, arith, All, split_on, w32, lt→ltb, ◌%◌, ◌/◌, ==_iff,
}
use risc_v_rv32i_multi_cycle.Utils.{digit, int_to_hex}
use risc_v_rv32i_multi_cycle.Utils.Hex.{hex_string_to_int-int_to_hex, int_to_hex-nibbles, nibbles}
use risc_v_rv32i_multi_cycle.Utils.Scan.{digit_value-digit}
use risc_v_rv32i_multi_cycle.Ncurses.{Screen}
use risc_v_rv32i_multi_cycle.Core.{Unpacked, update, write_word, mem_words}
use risc_v_rv32i_multi_cycle.Bench.{store}
use risc_v_rv32i_multi_cycle.Bench.Load.{
  given, is_hex, all_hex, hex_run, eight_hex, value_at, match_at, load_match, search, load_line,
  load_lines,
}

-- A line of an image: the address and the word, as the console prints them.
abbrev image_line : ℕ → ℕ → Bytes
image_line i w = (b'@' ∷ int_to_hex i []) ++ (b' ' ∷ int_to_hex w [])

abbrev IsHex : ℕ → Type 0
IsHex c = is_hex c ≡ true

digit-IsHex : (d : ℕ) → d < 16 → IsHex (digit d)
digit-IsHex d h = ap given (digit_value-digit 16 d (omega arith) h)

nibbles-IsHex : (n v : ℕ) (out : Bytes) → All IsHex out → All IsHex (nibbles n v out)
nibbles-IsHex zero v out h = h
nibbles-IsHex (suc n) v out h =
    nibbles-IsHex n (v / 16) (digit (v % 16) ∷ out) (digit-IsHex (v % 16) (omega arith), h)

all_hex_lem : (s : Bytes) → All IsHex s → all_hex s ≡ true
all_hex_lem [] h = refl
all_hex_lem (c ∷ s) (h, hs) = rw h (all_hex_lem s hs)

-- The run of digits ends at a blank.
hex_run_lem : (t s : Bytes) → All IsHex t → hex_run (t ++ b' ' ∷ s) ≡ (t, b' ' ∷ s)
hex_run_lem [] s h = refl
hex_run_lem (c ∷ t) s (h, hs) = rw (h, hex_run_lem t s hs) refl

take-length : (s : Bytes) (n : ℕ) → length s ≡ n → take n s ≡ s
take-length [] zero e = refl
take-length [] (suc n) e = refl
take-length (c ∷ s) zero e = absurd (omega arith)
take-length (c ∷ s) (suc n) e = ap (λ t. c ∷ t) (take-length s n (omega arith))

eight_hex_lem : (v : Bytes) → length v ≡ 8 → All IsHex v → eight_hex v ≡ some v
eight_hex_lem v l h = rw (take-length v 8 l, l, all_hex_lem v h) refl

value_at_lem :
    (x : ℕ) (t v : Bytes)
    → length v ≡ 8
    → All IsHex v
    → value_at (x ∷ t) (b' ' ∷ v) ≡ some (x ∷ t, v)
value_at_lem x t v l h = ap (λ o. o >>= λ w. some (x ∷ t, w)) (eight_hex_lem v l h)

match_at_lem :
    (x : ℕ) (t v : Bytes)
    → All IsHex (x ∷ t)
    → length v ≡ 8
    → All IsHex v
    → match_at (b'@' ∷ (x ∷ t) ++ b' ' ∷ v) ≡ some (x ∷ t, v)
match_at_lem x t v ht l h =
    ap (λ r. value_at r.0 r.1) (hex_run_lem (x ∷ t) v ht) ∙ value_at_lem x t v l h

search-match_at :
    (c : ℕ) (s : Bytes) (g : Bytes × Bytes) → match_at (c ∷ s) ≡ some g → search (c ∷ s) ≡ some g
unfolding search
search-match_at c s g e = rw (search, e) refl

search-nibbles :
    (i w : ℕ)
    → search (b'@' ∷ nibbles 8 i [] ++ b' ' ∷ nibbles 8 w [])
      ≡ some (nibbles 8 i [], nibbles 8 w [])
search-nibbles i w =
    search-match_at _ _ _
      (match_at_lem _ _ (nibbles 8 w []) (nibbles-IsHex 8 i [] tt) refl (nibbles-IsHex 8 w [] tt))

search-image_line :
    (i w : ℕ)
    → i < w32
    → w < w32
    → search (image_line i w) ≡ some (int_to_hex i [], int_to_hex w [])
search-image_line i w hi hw =
    rw (int_to_hex-nibbles i [] hi, int_to_hex-nibbles w [] hw) (search-nibbles i w)

load_match_lem :
    (i w : ℕ) (m : Unpacked) (s : Screen)
    → i < mem_words
    → w < w32
    → load_match (some (int_to_hex i [], int_to_hex w [])) (m, s) ≡ some (update m i w, s)
unfolding store write_word
load_match_lem i w m s hi hw =
    rw
      (
        hex_string_to_int-int_to_hex i (omega (arith, hi)),
        hex_string_to_int-int_to_hex w hw,
        lt→ltb i 2147483648 (omega (arith, hi)),
        lt→ltb i 1024 hi,
        to_u32-signed32 w hw,
      )
      refl

load_line-image_line :
    (i w : ℕ) (m : Unpacked) (s : Screen)
    → i < mem_words
    → w < w32
    → load_line (image_line i w) (m, s) ≡ some (update m i w, s)
unfolding load_line
load_line-image_line i w m s hi hw =
    ap (λ o. load_match o (m, s)) (search-image_line i w (omega (arith, hi)) hw)
    ∙ load_match_lem i w m s hi hw

update_other : (m : Unpacked) (n v i : ℕ) → n < i → update m n v i ≡ m i
update_other m n v i h = ground (arith, h)

-- The image of the first `n` words of a memory.
abbrev pub image : ℕ → Unpacked → List Bytes
image zero m = []
image (suc n) m = image_line n (m n) ∷ image n m

-- Loading the image of the first `n` words of one memory into another has a result for each
-- `n` up to the size, if all words are below 2 ^ 32: those words are copied and the others stay,
-- and nothing is drawn.
pub load_lines-image :
    (n : ℕ) (m m₀ : Unpacked) (s : Screen)
    → n ≤ mem_words
    → ((i : ℕ) → i < n → m i < w32)
    → (m' : Unpacked) × (load_lines (image n m) (m₀, s) ≡ some (m', s))
      × ((i : ℕ) → i < n → m' i ≡ m i)
      × ((i : ℕ) → n ≤ i → m' i ≡ m₀ i)
unfolding load_lines
load_lines-image zero m m₀ s h w = (m₀, refl, (λ i l. absurd (omega arith)), λ i _. refl)
load_lines-image (suc n) m m₀ s h w =
    let (m', e, low, high) =
      load_lines-image n m (update m₀ n (m n)) s (omega arith) (λ i l. w i (omega arith)) in
    (
      m',
      ap (λ o. o >>= load_lines (image n m))
            (load_line-image_line n (m n) m₀ s (omega (arith, h)) (w n (omega arith)))
          ∙ e,
      (λ i l.
          split_on (n == i) (λ q. high i (ground (arith, q)) ∙ rw q (ap m ((==_iff n i).0 q)))
            (λ q. low i (ground (arith, q, l)))),
      λ i l. high i (omega (arith, l)) ∙ update_other m₀ n (m n) i l,
    )
