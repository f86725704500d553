-- ===== src/Console/Memory.antt =====
-- `showMemory`, `showRegFile`, `showCSRs` and the two markers beside the memory
-- (simulation/ranger_console/console.cpp).
pub mod Rows
pub mod Marker
use risc_v_rv32i_multi_cycle.Prelude.{
  ℕ, zero, suc, ◌+◌, ◌-◌, ◌*◌, Bool, ◌&&◌, not, Option, none, some, List, [], ◌∷◌, ◌++◌, ltb, leb,
  ◌==◌, if◌then◌else◌, ◌>>=◌, get_elem?, ℤ, pos, negsuc, ◌+ℤ◌, ◌-ℤ◌, ltb_ℤ, Bytes, codes, signed32,
  to_u32, replicate,
}
use risc_v_rv32i_multi_cycle.Utils.{int_to_hex, int_to_string, hex_string_to_int, byte_to_word_addr}
use risc_v_rv32i_multi_cycle.Ncurses.{
  Screen, Call, draw, move, printw, attrset, normal, bold, pair_bold, mvaddstr, ◌▸◌,
}
use risc_v_rv32i_multi_cycle.Core.{Core, Unpacked, read_word, bank_words}
use risc_v_rv32i_multi_cycle.Model.{Model, Markers, marker_col, row_offset}
use risc_v_rv32i_multi_cycle.Console.{yellow_light_gray, green_light_gray, black_white}

-- `bt >= 32 && bt <= 126`
abbrev pub ascii_text : ℤ → Bytes
ascii_text (pos n) = if leb 32 n && leb n 126 then n ∷ [] else codes "."
ascii_text (negsuc n) = codes "."

-- The character of two of the printed digits, `data[i]` and `data[i + 1]`.
ascii_column : Bytes → ℕ → Option Call
ascii_column text i = do
  a ← get_elem? text i
  b ← get_elem? text (i + 1)
  bt ← hex_string_to_int (a ∷ b ∷ [])
  some (printw (ascii_text bt))

-- The body of the loop: the address, the word, and its four characters.
pub memory_row : ℕ → ℕ → ℕ → ℕ → Option (List Call)
unfolding ascii_column
memory_row row col i word =
    let text = int_to_hex word [] in
    do
      c₀ ← ascii_column text 0
      c₁ ← ascii_column text 2
      c₂ ← ascii_column text 4
      c₃ ← ascii_column text 6
      some (
          move row col
          ∷ attrset normal
          ∷ printw (int_to_hex i (codes "0x") ++ codes ": ")
          ∷ attrset bold
          ∷ printw (text ++ codes "  ")
          ∷ c₀
          ∷ c₁
          ∷ c₂
          ∷ c₃
          ∷ [])

-- The loop from address `i` on, for `left` rows.
pub memory_rows : ℕ → ℕ → ℕ → ℕ → ℕ → Unpacked → Screen → Option Screen
memory_rows mem_len zero row col i mem s = some s
memory_rows mem_len (suc left) row col i mem s = do
  word ← read_word mem_len mem i
  cs ← memory_row row col i word
  memory_rows mem_len left (row + 1) col (i + 1) mem (draw cs s)

-- The address that is shown first.
abbrev pub first_shown : ℤ → ℕ → ℕ
first_shown (negsuc n) mem_len = 0
first_shown (pos n) mem_len = if ltb mem_len n then mem_len - 1 - 32 else n

abbrev pub end_shown : ℕ → ℕ → ℕ
end_shown from mem_len = if ltb mem_len (from + 32) then mem_len else from + 32

-- `none` stands for a read out of range.
unfoldable pub show_memory : ℕ → ℕ → ℤ → ℕ → Unpacked → Screen → Option Screen
unfolding draw memory_rows memory_row int_to_hex hex_string_to_int read_word
show_memory row col from_addr mem_len mem s =
    let from = first_shown from_addr mem_len in
    memory_rows mem_len (end_shown from mem_len - from) (row + 1) col from mem (
      draw
        (attrset (pair_bold black_white)
          ∷ mvaddstr row col (codes " ---------- Memory -------")
          ∷ attrset normal
          ∷ [])
        s)

-- The register `x{i}` in its row.
reg_rows : ℕ → ℕ → ℕ → ℕ → Unpacked → Screen → Screen
unfolding draw
reg_rows zero row col i values s = s
reg_rows (suc left) row col i values s = reg_rows left (row + 1) col (i + 1) values (
    draw
      (move row col
        ∷ attrset normal
        ∷ printw
            ((if ltb i 10 then codes " x" else codes "x") ++ (int_to_string (pos i) ++ codes ": "))
        ∷ attrset bold
        ∷ printw (int_to_hex (values i) [])
        ∷ [])
      s)

unfoldable pub show_reg_file : ℕ → ℕ → Unpacked → Screen → Screen
unfolding draw reg_rows int_to_string int_to_hex
show_reg_file row col values s = reg_rows bank_words (row + 1) col 0 values (
    draw
      (attrset (pair_bold black_white)
        ∷ mvaddstr row col (codes "--- RegFile ---")
        ∷ attrset normal
        ∷ [])
      s)

abbrev csr_row : ℕ → ℕ → Bytes → ℕ → List Call
csr_row row col name value = move row col ∷ printw (int_to_hex value name) ∷ []

unfoldable pub show_csrs : {H : Type 0} → ℕ → ℕ → Core H → Screen → Screen
unfolding draw int_to_hex
show_csrs row col cm s =
    s
    ▸ draw (
        attrset (pair_bold black_white)
        ∷ mvaddstr row col (codes "----- CSRs ------")
        ∷ attrset normal
        ∷ attrset normal
        ∷ [])
    ▸ draw (csr_row (row + 1) col (codes "mstatus: ") cm.mstatus)
    ▸ draw (csr_row (row + 2) col (codes "    mie: ") cm.mie)
    ▸ draw (csr_row (row + 3) col (codes "    mip: ") cm.mip)
    ▸ draw (csr_row (row + 4) col (codes "   mepc: ") cm.mepc)
    ▸ draw (csr_row (row + 5) col (codes "  mtvec: ") cm.mtvec)

abbrev pub four_blanks : Bytes
four_blanks = replicate 4 32

-- `mem_len` rows from `row` on are wiped in the marker column.
unfoldable pub clear_pc_marker_col : ℕ → ℕ → Screen → Screen
unfolding draw
clear_pc_marker_col row zero s = s
clear_pc_marker_col row (suc left) s =
    clear_pc_marker_col (row + 1) left (draw (mvaddstr row (marker_col - 1) four_blanks ∷ []) s)

-- The distance of an address that is not below the other.
abbrev distance : ℤ → ℤ → ℕ
distance a from = elim (a -ℤ from) [ pos n ↦ n | negsuc n ↦ 0 ]

-- The row of the word with the given address, if it is among the 32 that are shown.
abbrev pub marker_row : ℤ → ℤ → Option ℕ
marker_row pc from =
    if not (ltb_ℤ pc from) && ltb_ℤ pc (pos 1024)
    then (if ltb_ℤ pc (from +ℤ pos 32) then some (distance pc from + row_offset) else none)
    else none

module _ {H : Type 0} where
  unfoldable pub show_pc_marker : Model H → Markers × Screen → Markers × Screen
  unfolding draw byte_to_word_addr
  show_pc_marker m (k, s) = elim (marker_row (byte_to_word_addr (signed32 m.core.pc)) m.from_addr) [
    | none ↦ (k, s)
    | some r ↦ (
      record k { p_pc_marker = r },
      draw (attrset (pair_bold yellow_light_gray) ∷ mvaddstr r marker_col (codes "PC>") ∷ []) s,
    )
  ]

  unfoldable pub show_pc_prior_marker : Model H → Markers × Screen → Markers × Screen
  unfolding draw byte_to_word_addr
  show_pc_prior_marker m (k, s) =
      elim (marker_row (byte_to_word_addr (signed32 m.core.pc_prior)) m.from_addr) [
        | none ↦ (k, s)
        | some r ↦ (
          record k { p_pcp_marker = r },
          draw
              (attrset (pair_bold green_light_gray)
                ∷ mvaddstr r (marker_col - 1) (codes "PCP>")
                ∷ [])
              s,
        )
      ]
