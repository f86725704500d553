-- ===== src/Bench/Load.antt =====
-- `case Command::LoadProg` of simulation/ranger_console/console_tb.cpp: a program image, one word
-- to a line, as in `@01 00100073`. The file system is a parameter: the lines of a file that can be
-- opened. The file is only read, so what its closing does is not modelled.
pub mod Image
use risc_v_rv32i_multi_cycle.Prelude.{
  ℕ, Bool, true, false, Option, none, some, List, [], ◌∷◌, ◌++◌, ◌==◌, ◌&&◌, if◌then◌else◌, ◌>>=◌,
  length, take, Bytes, codes,
}
use risc_v_rv32i_multi_cycle.Utils.{digit_value, hex_string_to_int}
use risc_v_rv32i_multi_cycle.Ncurses.{Screen, Call, draw, move, clrtoeol, mvaddstr}
use risc_v_rv32i_multi_cycle.Core.{Unpacked}
use risc_v_rv32i_multi_cycle.Console.Memory.{show_csrs}
use risc_v_rv32i_multi_cycle.Bench.{App, store, drawn, redraw_memory}

abbrev pub given : Option ℕ → Bool
given none = false
given (some d) = true

-- `[a-fA-F0-9]`
abbrev pub is_hex : ℕ → Bool
is_hex c = given (digit_value 16 c)

abbrev pub all_hex : Bytes → Bool
all_hex [] = true
all_hex (c ∷ s) = is_hex c && all_hex s

-- The longest run of such characters at the front, and what follows it.
abbrev pub hex_run : Bytes → Bytes × Bytes
hex_run [] = ([], [])
hex_run (c ∷ s) = let (r, rest) = hex_run s in if is_hex c then (c ∷ r, rest) else ([], c ∷ s)

-- `[a-fA-F0-9]{8}` at the front
abbrev pub eight_hex : Bytes → Option Bytes
eight_hex s = let v = take 8 s in if length v == 8 && all_hex v then some v else none

-- A blank, then the value of the address.
abbrev pub value_at : Bytes → Bytes → Option (Bytes × Bytes)
value_at [] s = none
value_at (a ∷ addr) [] = none
value_at (a ∷ addr) (c ∷ s) = if c == b' ' then (do v ← eight_hex s; some (a ∷ addr, v)) else none

-- The two groups of `@([a-fA-F0-9]+) ([a-fA-F0-9]{8})` if it matches at the front. A blank is no
-- hexadecimal digit, so only the longest run can match.
abbrev pub match_at : Bytes → Option (Bytes × Bytes)
match_at [] = none
match_at (c ∷ s) = if c == b'@' then (let (addr, rest) = hex_run s in value_at addr rest) else none

-- `std::regex_search`: the first match.
pub search : Bytes → Option (Bytes × Bytes)
search [] = none
search (c ∷ s) = elim (match_at (c ∷ s)) [ some g ↦ some g | none ↦ search s ]

-- What is done with the result of the search.
abbrev pub load_match : Option (Bytes × Bytes) → Unpacked × Screen → Option (Unpacked × Screen)
load_match none (m, s) = some (m, draw (mvaddstr 0 100 (codes "No match!!!!!!!!!!!") ∷ []) s)
load_match (some (addr, value)) (m, s) = do
  i ← hex_string_to_int addr
  v ← hex_string_to_int value
  m' ← store i v m
  some (m', s)

-- The body of the `while (getline(file, line))`.
pub load_line : Bytes → Unpacked × Screen → Option (Unpacked × Screen)
unfolding search hex_string_to_int store draw
load_line line r = load_match (search line) r

pub load_lines : List Bytes → Unpacked × Screen → Option (Unpacked × Screen)
unfolding load_line
load_lines [] r = some r
load_lines (line ∷ lines) r = do r' ← load_line line r; load_lines lines r'

abbrev ram_file : Bytes → Bytes
ram_file name = codes "rams/" ++ (name ++ codes ".ram")

abbrev message : Bytes → List Call
message text = move 0 50 ∷ clrtoeol ∷ mvaddstr 0 50 text ∷ []

module _ {H : Type 0} (files : Bytes → Option (List Bytes)) where
  -- The file is read if there is one.
  read_image : App H → Option (App H)
  unfolding load_lines draw
  read_image a =
      let name = ram_file a.con.arg1 in
      elim (files name) [
        | none ↦ some (drawn (draw (message (codes "Unable to open: " ++ name))) a)
        | some lines ↦ (do
          (m, s) ←
              load_lines lines
                (a.mdl.core.mem, draw (message (codes "Opened: " ++ name)) a.con.screen)
          some (record a {
            con = record a.con { screen = s };
            mdl = record a.mdl { core = record a.mdl.core { mem = m } };
          }))
      ]

  unfoldable pub load_prog : App H → Option (App H)
  unfolding read_image redraw_memory show_csrs
  load_prog a = do
    b ← read_image a
    c ← redraw_memory b
    some (drawn (show_csrs 2 110 c.mdl.core) c)
