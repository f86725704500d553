-- ===== src/Console/Labels.antt =====
-- The show methods of simulation/ranger_console/console.cpp for one property, and the names that
-- its `switch` statements print.
pub mod Names
use risc_v_rv32i_multi_cycle.Prelude.{
  ℕ, ◌+◌, Bool, true, Option, none, some, List, [], ◌∷◌, ◌++◌, ltb, ◌==◌, if◌then◌else◌, get_elem?,
  ℤ, pos, negsuc, replicate, Bytes, codes, signed32, to_u32, w32, ◌%◌,
}
use risc_v_rv32i_multi_cycle.Utils.{int_to_hex, int_to_bin, int_to_string}
use risc_v_rv32i_multi_cycle.Ncurses.{
  Screen, Call, draw, move, addch, printw, attrset, normal, bold, pair_bold, mvaddch, mvaddstr,
  Terminal,
}
use risc_v_rv32i_multi_cycle.Console.{yellow_light_gray, cyan_light_gray, black_white}

unfoldable show_label : ℕ → ℕ → Bytes → Screen → Screen
unfolding draw
show_label row col label s =
    record (draw
      (attrset normal
        ∷ move row col
        ∷ printw (replicate 31 32)
        ∷ move row col
        ∷ printw (label ++ codes ": ")
        ∷ attrset bold
        ∷ [])
      s) { data_dirty = true }

-- `%d` reads an `int`: of the `unsigned long int` it prints the lower half, as an `int`.
unfoldable pub show_ul_int_property : ℕ → ℕ → Bytes → ℕ → Screen → Screen
unfolding draw show_label int_to_string
show_ul_int_property row col label value s =
    draw (printw (int_to_string (signed32 (value % w32))) ∷ []) (show_label row col label s)

-- The prefix `(when) ` if `when` is not negative. It is -1 by default.
abbrev when_prefix : ℤ → Bytes
when_prefix (pos n) = codes "(" ++ (int_to_string (pos n) ++ codes ") ")
when_prefix (negsuc n) = []

unfoldable show_int_property_when : ℤ → ℕ → ℕ → Bytes → ℤ → Screen → Screen
unfolding draw show_label int_to_string
show_int_property_when when row col label value s =
    draw (printw (when_prefix when ++ int_to_string value) ∷ []) (show_label row col label s)

unfoldable pub show_int_property : ℕ → ℕ → Bytes → ℤ → Screen → Screen
unfolding show_int_property_when
show_int_property = show_int_property_when (negsuc 0)

unfoldable show_int_as_hex_property_when : ℤ → ℕ → ℕ → Bytes → ℤ → Screen → Screen
unfolding draw show_label int_to_string int_to_hex
show_int_as_hex_property_when when row col label value s =
    draw (printw (when_prefix when ++ int_to_hex (to_u32 value) []) ∷ [])
      (show_label row col label s)

unfoldable pub show_int_as_hex_property : ℕ → ℕ → Bytes → ℤ → Screen → Screen
unfolding show_int_as_hex_property_when
show_int_as_hex_property = show_int_as_hex_property_when (negsuc 0)

unfoldable pub show_bool_property : ℕ → ℕ → Bytes → Bool → Screen → Screen
unfolding draw show_label
show_bool_property row col label value s =
    draw ((if value then printw (codes "True") else printw (codes "False")) ∷ [])
      (show_label row col label s)

unfoldable pub show_register_bin : ℕ → ℕ → Bytes → ℤ → Screen → Screen
unfolding draw int_to_bin
show_register_bin row col header value = draw (
    move row col
    ∷ attrset normal
    ∷ printw (header ++ codes ": ")
    ∷ attrset bold
    ∷ printw (int_to_bin value [])
    ∷ [])

unfoldable pub show_register_int : ℕ → ℕ → Bytes → ℤ → Screen → Screen
unfolding draw int_to_string
show_register_int row col header value = draw (
    mvaddstr row col (replicate 22 32)
    ∷ move row col
    ∷ attrset normal
    ∷ printw (header ++ codes ": ")
    ∷ attrset bold
    ∷ printw (int_to_string value)
    ∷ [])

-- Three characters of the clock line.
abbrev edge_chars : ℕ → ℕ → ℕ → ℕ → ℕ → List Call
edge_chars row col a b c =
    mvaddch row (col + 8) a ∷ mvaddch row (col + 9) b ∷ mvaddch row (col + 10) c ∷ []

-- 0: the clock rose; 1: it fell; else it is as it was.
unfoldable pub show_clock_edge : Terminal → ℕ → ℕ → ℕ → Screen → Screen
unfolding draw
show_clock_edge t row col clk_state s₀ =
    let s =
      draw
        (attrset normal
          ∷ mvaddstr row col (codes "Clock: ")
          ∷ attrset (pair_bold cyan_light_gray)
          ∷ [])
        s₀ in
    if clk_state == 0
    then record (draw (edge_chars row col b'_' b'/' t.acs_s1) s) { p_clk_state = 0 }
    else if clk_state == 1
    then record (draw (edge_chars row col t.acs_s1 92 b'_') s) { p_clk_state = 1 }
    else if s.p_clk_state == 0
    then draw (edge_chars row col t.acs_s1 t.acs_s1 t.acs_s1) s
    else draw (edge_chars row col b'_' b'_' b'_') s

-- What a `case` prints; a value without a `case` prints nothing.
abbrev print_name : Option Bytes → List Call
print_name none = []
print_name (some name) = printw name ∷ []

abbrev cpu_state_names : List Bytes
cpu_state_names =
    codes "Reset" ∷ codes "Fetch" ∷ codes "Decode" ∷ codes "Execute" ∷ codes "Halt" ∷ []

abbrev vector_state_names : List Bytes
vector_state_names =
    codes "Sync0" ∷ codes "Vector0" ∷ codes "Vector1" ∷ codes "Vector2" ∷ codes "Vector3" ∷ []

abbrev ir_state_names : List Bytes
ir_state_names =
    codes "STStore"
    ∷ codes "STMemAcc"
    ∷ codes "STMemWrt"
    ∷ codes "STMemRrd"
    ∷ codes "ITLoad"
    ∷ codes "ITLDMemAcc"
    ∷ codes "ITLDMemMdr"
    ∷ codes "ITLDMemCmpl"
    ∷ codes "RType"
    ∷ codes "RTCmpl"
    ∷ codes "BType"
    ∷ codes "BTBranch"
    ∷ codes "BTCmpl"
    ∷ codes "ITALU"
    ∷ codes "ITALUCmpl"
    ∷ codes "JTJal"
    ∷ codes "JTJalRtr"
    ∷ codes "ITJalr"
    ∷ codes "ITJalrRtr"
    ∷ codes "UType"
    ∷ codes "UTCmpl"
    ∷ codes "UTypeAui"
    ∷ codes "UTAuiCmpl"
    ∷ codes "ITEbreak"
    ∷ codes "ITECall"
    ∷ codes "ITCSR"
    ∷ codes "ITCSRLd"
    ∷ codes "IRQ0"
    ∷ codes "IRQ1"
    ∷ codes "IRQ2"
    ∷ codes "ITMret"
    ∷ codes "ITMretClr"
    ∷ codes "PreFetch"
    ∷ codes "IRUnknown"
    ∷ []

abbrev pub alu_flags_names : List Bytes
alu_flags_names =
    codes "----"
    ∷ codes "---Z"
    ∷ codes "--C-"
    ∷ codes "--CZ"
    ∷ codes "-N--"
    ∷ codes "-N-Z"
    ∷ codes "-NC-"
    ∷ codes "-NCZ"
    ∷ codes "V---"
    ∷ codes "V--Z"
    ∷ codes "V-C-"
    ∷ codes "V-CZ"
    ∷ codes "VN--"
    ∷ codes "VN-Z"
    ∷ codes "VNC-"
    ∷ codes "VNCZ"
    ∷ []

-- The `case` labels of `showALUOp` with what they print.
abbrev pub alu_op_names : List (ℕ × Bytes)
alu_op_names =
    (0b000000, codes "Add")
    ∷ (0b000010, codes "Sub")
    ∷ (0b001000, codes "Sll")
    ∷ (0b010000, codes "Slt")
    ∷ (0b011000, codes "Sltu")
    ∷ (0b100000, codes "Xor")
    ∷ (0b101000, codes "Srl")
    ∷ (0b101010, codes "Sra")
    ∷ (0b110000, codes "Or")
    ∷ (0b111000, codes "And")
    ∷ []

abbrev pub find_case : ℕ → List (ℕ × Bytes) → Option Bytes
find_case value [] = none
find_case value ((k, name) ∷ cases) = if value == k then some name else find_case value cases

unfoldable pub show_cpu_state : ℕ → ℕ → Bytes → ℕ → Screen → Screen
unfolding draw show_label
show_cpu_state row col label value s =
    draw (attrset (pair_bold yellow_light_gray) ∷ print_name (get_elem? cpu_state_names value))
      (show_label row col label s)

unfoldable pub show_vector_state : ℕ → ℕ → Bytes → ℕ → Screen → Screen
unfolding draw show_label
show_vector_state row col label value s =
    draw (attrset (pair_bold yellow_light_gray) ∷ print_name (get_elem? vector_state_names value))
      (show_label row col label s)

unfoldable pub show_ir_state : ℕ → ℕ → Bytes → ℕ → Screen → Screen
unfolding draw show_label
show_ir_state row col label value s =
    draw (attrset (pair_bold yellow_light_gray) ∷ print_name (get_elem? ir_state_names value))
      (show_label row col label s)

unfoldable pub show_alu_op : ℕ → ℕ → Bytes → ℕ → Screen → Screen
unfolding draw show_label
show_alu_op row col label value s =
    draw (print_name (find_case value alu_op_names)) (show_label row col label s)

unfoldable pub show_alu_flags_property : ℕ → ℕ → Bytes → ℕ → Screen → Screen
unfolding draw show_label
show_alu_flags_property row col label value s =
    draw (attrset (pair_bold black_white) ∷ print_name (get_elem? alu_flags_names value))
      (show_label row col label s)
