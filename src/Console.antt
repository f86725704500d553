-- ===== src/Console.antt =====
-- simulation/ranger_console/console.h and console.cpp: the state of the console, its start, the
-- caret, and the accessors of the arguments. Its input handling and its show methods are below.
pub mod Input
pub mod Labels
pub mod Memory
pub mod Show
use risc_v_rv32i_multi_cycle.Prelude.{
  ℕ, suc, ◌+◌, ◌-◌, Bool, true, false, Option, none, some, List, [], ◌∷◌, ◌==◌, if◌then◌else◌, ℤ,
  pos, negsuc, Bytes, codes, starts_with, ◌||◌,
}
use risc_v_rv32i_multi_cycle.Utils.{string_to_int, hex_string_to_int, string_to_bool}
use risc_v_rv32i_multi_cycle.Commands.{Command, none_given}
use risc_v_rv32i_multi_cycle.Ncurses.{
  Terminal, Screen, draw, normal, initscr, endwin, raw, noecho, keypad, nodelay, start_color,
  clrtoeol, refresh, init_color, init_pair, move, addstr, mvaddch, attrset, puts,
}

-- The last three fields of the class, `dataDirty`, `p_clkState` and the terminal, are the screen.
pub record Console : Type 0 where
  pub key_buffer : Bytes
  pub last_cmd : Bytes
  pub ch : ℤ
  pub col : ℕ
  pub exit_console : Bool
  pub cmd : Command
  pub arg1 : Bytes
  pub arg2 : Bytes
  pub arg3 : Bytes
  pub arg4 : Bytes
  pub arg5 : Bytes
  pub screen : Screen

abbrev pub start_cmd_line_col : ℕ
start_cmd_line_col = 1

-- The constructor. `ch` and `cmd` have no initial value there; no method reads them before
-- `handleInput` writes them.
unfoldable pub new : Console
new = record {
  key_buffer = [];
  last_cmd = [];
  ch = negsuc 0;
  col = start_cmd_line_col;
  exit_console = false;
  cmd = none_given;
  arg1 = [];
  arg2 = [];
  arg3 = [];
  arg4 = [];
  arg5 = [];
  screen = record { calls = initscr ∷ []; data_dirty = true; p_clk_state = 1 };
}

-- The destructor.
unfoldable pub delete : Screen → Screen
unfolding draw
delete = draw (puts (codes "Shutting down console") ∷ endwin ∷ [])

abbrev pub yellow_light_gray : ℕ
yellow_light_gray = 6

abbrev pub green_light_gray : ℕ
green_light_gray = 7

abbrev pub cyan_light_gray : ℕ
cyan_light_gray = 8

abbrev pub black_white : ℕ
black_white = 9

module _ (t : Terminal) where
  open t use {
    lines, has_colors, start_color_ok, can_change_color, color_black, color_green, color_yellow,
    color_red, color_cyan, color_white,
  }

  -- `can_change_color() != OK`: the answer is a `bool`, and `OK` is 0.
  check_change_color : Screen → Screen
  unfolding draw
  check_change_color s =
      if can_change_color then draw (puts (codes "Term can't change colors") ∷ []) s else s

  set_colors : Screen → Screen
  unfolding draw
  set_colors = draw (
      init_color 4 128 128 128
      ∷ init_color 5 200 200 200
      ∷ init_pair 2 color_yellow color_red
      ∷ init_pair 3 color_yellow 4
      ∷ init_pair yellow_light_gray color_yellow 5
      ∷ init_pair green_light_gray color_green 5
      ∷ init_pair cyan_light_gray color_cyan 5
      ∷ init_pair black_white color_black color_white
      ∷ [])

  -- The result and the screen.
  unfoldable pub init : Screen → ℕ × Screen
  unfolding draw check_change_color set_colors
  init s =
      let s' = draw (raw ∷ noecho ∷ keypad ∷ nodelay ∷ []) s in
      if has_colors
      then (if start_color_ok
          then (0, set_colors (check_change_color (draw (start_color ∷ []) s')))
          else (1, draw (start_color ∷ endwin ∷ puts (codes "Term can't start colors") ∷ []) s'))
      else (1, draw (endwin ∷ puts (codes "Term can't do colors") ∷ []) s')

  unfoldable pub clear_cmd_line : Screen → Screen
  unfolding draw
  clear_cmd_line = draw (move (lines - 1) 2 ∷ clrtoeol ∷ [])

  unfoldable pub show_term_caret : Screen → Screen
  unfolding draw
  show_term_caret = draw (attrset normal ∷ mvaddch (lines - 1) 1 b'>' ∷ [])

  unfoldable pub move_caret_to_endl : ℕ → Screen → Screen
  unfolding draw
  move_caret_to_endl col = draw (move (lines - 1) (col + 1) ∷ [])

  unfoldable pub start : Console → Console
  unfolding draw clear_cmd_line show_term_caret move_caret_to_endl
  start c = record c {
    screen = move_caret_to_endl c.col (
        show_term_caret
          (clear_cmd_line (draw (addstr (codes "----- RangerRisc Console -----") ∷ []) c.screen)));
  }

  -- What is drawn shows when the caret has been put back, and only if something is dirty.
  unfoldable pub update : Console → Console
  unfolding draw show_term_caret move_caret_to_endl
  update c =
      if c.screen.data_dirty
      then (let s = draw (refresh ∷ []) (move_caret_to_endl c.col (show_term_caret c.screen)) in
          record c { screen = record s { data_dirty = false } })
      else c

unfoldable mark_for_update : Console → Console
mark_for_update c = record c { screen = record c.screen { data_dirty = true } }

-- `arg.find("0x") != npos`
abbrev contains_0x : Bytes → Bool
contains_0x [] = false
contains_0x (c ∷ s) = starts_with (codes "0x") (c ∷ s) || contains_0x s

-- `getArg1Int`, `getArg2Int`; `none`: the value is indeterminate.
unfoldable arg_int : Bytes → Option ℤ
unfolding string_to_int hex_string_to_int
arg_int arg = if contains_0x arg then hex_string_to_int arg else string_to_int arg

unfoldable pub get_arg1_int : Console → Option ℤ
unfolding arg_int
get_arg1_int c = arg_int c.arg1

unfoldable pub get_arg2_int : Console → Option ℤ
unfolding arg_int
get_arg2_int c = arg_int c.arg2

unfoldable pub get_arg1_bool : Console → Bool
unfolding string_to_bool
get_arg1_bool c = string_to_bool c.arg1
