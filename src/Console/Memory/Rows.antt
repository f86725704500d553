-- ===== src/Console/Memory/Rows.antt =====
-- What the rows of `showMemory` hold, and that they read nothing out of range.
use risc_v_rv32i_multi_cycle.Prelude.{
  ℕ, zero, suc, ◌+◌, ◌-◌, ◌*◌, ◌/◌, ◌%◌, ◌≤◌, ◌<◌, ◌≡◌, refl, ap, ◌∙◌, some, List, [], ◌∷◌, ◌++◌,
  arith, ℤ, pos, negsuc, lt→ltb, w32, Bytes, codes, ◌>>=◌, get_elem?,
}
use risc_v_rv32i_multi_cycle.Utils.{digit, int_to_hex, hex_string_to_int}
use risc_v_rv32i_multi_cycle.Utils.Hex.{int_to_hex-nibbles, hex_string_to_int-pair, nibbles}
use risc_v_rv32i_multi_cycle.Ncurses.{Screen, Call, draw, move, printw, attrset, normal, bold}
use risc_v_rv32i_multi_cycle.Core.{Unpacked, read_word}
use risc_v_rv32i_multi_cycle.Console.Memory.{
  memory_row, memory_rows, show_memory, ascii_column, ascii_text, first_shown, end_shown,
}

column_at :
    (s : Bytes) (i a b : ℕ)
    → get_elem? s i ≡ some (digit a)
    → get_elem? s (i + 1) ≡ some (digit b)
    → a < 16
    → b < 16
    → ascii_column s i ≡ some (printw (ascii_text (pos (a * 16 + b))))
unfolding ascii_column
column_at s i a b p q ha hb =
    ap
      (λ o. o >>= λ x. get_elem? s (i + 1) >>= λ y.
        hex_string_to_int (x ∷ y ∷ []) >>= λ bt. some (printw (ascii_text bt)))
      p
    ∙ ap
        (λ o.
          o >>= λ y. hex_string_to_int (digit a ∷ y ∷ []) >>= λ bt. some (printw (ascii_text bt)))
        q
    ∙ ap (λ o. o >>= λ bt. some (printw (ascii_text bt))) (hex_string_to_int-pair a b ha hb)

-- The byte `w / 256 ^ k % 256`, from two digits.
abbrev byte_text : ℕ → Call
byte_text v = printw (ascii_text (pos (v % 256)))

column_lem :
    (s : Bytes) (i v : ℕ)
    → get_elem? s i ≡ some (digit (v / 16 % 16))
    → get_elem? s (i + 1) ≡ some (digit (v % 16))
    → ascii_column s i ≡ some (byte_text v)
column_lem s i v p q =
    let e : v / 16 % 16 * 16 + v % 16 ≡ v % 256 = omega arith in
    column_at s i (v / 16 % 16) (v % 16) p q (omega arith) (omega arith) ∙ rw e refl

nibble_at :
    (w j d : ℕ) (c : ℕ)
    → w < w32
    → get_elem? (nibbles 8 w []) j ≡ some (digit c)
    → c ≡ d
    → get_elem? (int_to_hex w []) j ≡ some (digit d)
nibble_at w j d c h e q =
    ap (λ s. get_elem? s j) (int_to_hex-nibbles w [] h) ∙ e ∙ ap (λ x. some (digit x)) q

-- A row of the memory dump: the address, the word in hexadecimal, and its four bytes as text, the
-- highest first.
memory_row_lem :
    (row col i w : ℕ)
    → w < w32
    → memory_row row col i w
      ≡ some (
          move row col
          ∷ attrset normal
          ∷ printw (int_to_hex i (codes "0x") ++ codes ": ")
          ∷ attrset bold
          ∷ printw (int_to_hex w [] ++ codes "  ")
          ∷ byte_text (w / 16777216)
          ∷ byte_text (w / 65536)
          ∷ byte_text (w / 256)
          ∷ byte_text w
          ∷ [])
unfolding memory_row
memory_row_lem row col i w h =
    rw
      (
        memory_row,
        column_lem (int_to_hex w []) 0 (w / 16777216) (nibble_at w 0 _ _ h refl (omega arith))
            (nibble_at w 1 _ _ h refl (omega arith)),
        column_lem (int_to_hex w []) 2 (w / 65536) (nibble_at w 2 _ _ h refl (omega arith))
            (nibble_at w 3 _ _ h refl (omega arith)),
        column_lem (int_to_hex w []) 4 (w / 256) (nibble_at w 4 _ _ h refl (omega arith))
            (nibble_at w 5 _ _ h refl (omega arith)),
        column_lem (int_to_hex w []) 6 w (nibble_at w 6 _ _ h refl refl)
            (nibble_at w 7 _ _ h refl refl),
      )
      refl

memory_row-defined :
    (row col i w : ℕ) → w < w32 → (cs : List Call) × (memory_row row col i w ≡ some cs)
memory_row-defined row col i w h = (_, memory_row_lem row col i w h)

memory_rows-suc :
    (len left row col i : ℕ) (m : Unpacked) (s : Screen) (cs : List Call)
    → i < len
    → memory_row row col i (m i) ≡ some cs
    → memory_rows len (suc left) row col i m s
      ≡ memory_rows len left (row + 1) col (i + 1) m (draw cs s)
unfolding memory_rows read_word
memory_rows-suc len left row col i m s cs h e = let inside = lt→ltb i len h in rw (inside, e) refl

-- The rows from address `i` on can be drawn where the memory has as many words left.
memory_rows_lem :
    (len left row col i : ℕ) (m : Unpacked) (s : Screen)
    → i + left ≤ len
    → ((j : ℕ) → j < len → m j < w32)
    → (s' : Screen) × (memory_rows len left row col i m s ≡ some s')
unfolding memory_rows read_word
memory_rows_lem len zero row col i m s h w = (s, refl)
memory_rows_lem len (suc left) row col i m s h w =
    let inside : i < len = omega (arith, h) in
    let (cs, first) = memory_row-defined row col i (m i) (w i inside) in
    let (s', e) = memory_rows_lem len left (row + 1) col (i + 1) m (draw cs s) (omega arith) w in
    (s', memory_rows-suc len left row col i m s cs inside first ∙ e)

-- The memory dump is defined for every first address, negative ones and those behind the end
-- included, where the memory has at least 33 words, all below 2 ^ 32: no read is out of range.
pub show_memory_defined :
    (row col : ℕ) (from : ℤ) (len : ℕ) (m : Unpacked) (s : Screen)
    → 33 ≤ len
    → ((j : ℕ) → j < len → m j < w32)
    → (s' : Screen) × (show_memory row col from len m s ≡ some s')
unfolding show_memory
show_memory_defined row col from len m s h w = memory_rows_lem len _ _ _ _ m _ (in_memory from) w
  where
    in_memory :
        (z : ℤ) → first_shown z len + (end_shown (first_shown z len) len - first_shown z len) ≤ len
    in_memory (pos n) = ground (arith, h)
    in_memory (negsuc n) = ground (arith, h)
