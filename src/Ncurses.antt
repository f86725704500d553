-- ===== src/Ncurses.antt =====
-- What the console uses of ncurses: the calls that it makes are recorded in order, and what the
-- terminal answers is a parameter.
use risc_v_rv32i_multi_cycle.Prelude.{ℕ, ℤ, ◌≢◌, ◌<◌, Bool, List, ◌++◌, Bytes}

-- `A_NORMAL`, `A_BOLD`, and `COLOR_PAIR(n) | A_BOLD`
pub data Attribute : Type 0 where
  normal bold : Attribute
  pair_bold : ℕ → Attribute

pub data Call : Type 0 where
  initscr endwin raw noecho keypad nodelay start_color clrtoeol refresh : Call
  init_color : ℕ → ℕ → ℕ → ℕ → Call
  init_pair : ℕ → ℕ → ℕ → Call
  move : ℕ → ℕ → Call
  addch : ℕ → Call
  addstr : Bytes → Call
  mvaddch : ℕ → ℕ → ℕ → Call
  mvaddstr : ℕ → ℕ → Bytes → Call
  -- the text that the format gives
  printw : Bytes → Call
  attrset : Attribute → Call
  napms : ℤ → Call
  puts : Bytes → Call

-- The terminal: its size, the codes of the special keys, a line-drawing character and the eight
-- colours, and what it answers when it is asked for colours. Key codes lie above all characters.
pub record Terminal : Type 0 where
  pub lines : ℕ
  pub key_backspace : ℕ
  pub key_up : ℕ
  pub key_down : ℕ
  pub key_home : ℕ
  pub acs_s1 : ℕ
  pub color_black : ℕ
  pub color_green : ℕ
  pub color_yellow : ℕ
  pub color_red : ℕ
  pub color_cyan : ℕ
  pub color_white : ℕ
  pub has_colors : Bool
  pub start_color_ok : Bool
  pub can_change_color : Bool
  pub backspace_above : 255 < key_backspace
  pub up_above : 255 < key_up
  pub down_above : 255 < key_down
  pub home_above : 255 < key_home
  pub backspace-ne-up : key_backspace ≢ key_up
  pub backspace-ne-down : key_backspace ≢ key_down
  pub backspace-ne-home : key_backspace ≢ key_home
  pub up-ne-down : key_up ≢ key_down
  pub up-ne-home : key_up ≢ key_home
  pub down-ne-home : key_down ≢ key_home

-- The part of a `Console` that its show methods change, with the calls made so far.
pub record Screen : Type 0 where
  pub calls : List Call
  pub data_dirty : Bool
  pub p_clk_state : ℕ

unfoldable pub draw : List Call → Screen → Screen
draw cs s = record s { calls = s.calls ++ cs }

-- One call after another.
infixl 20 ◌▸◌
abbrev pub ◌▸◌ {ℓ} : {A : Type ℓ} → A → (A → A) → A
s ▸ f = f s
