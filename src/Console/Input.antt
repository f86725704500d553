-- ===== src/Console/Input.antt =====
-- `Console::handleInput` (simulation/ranger_console/console.cpp): one poll of the keyboard. The
-- result is `none` where the code reads a field that the line does not have.
pub mod Lines
pub mod Buffer
pub mod Typing
use risc_v_rv32i_multi_cycle.Prelude.{
  ℕ, suc, ◌+◌, ◌-◌, Bool, true, false, ◌&&◌, ◌||◌, Option, none, some, List, [], ◌∷◌, ◌++◌, ltb,
  leb, ◌==◌, if◌then◌else◌, ◌>>=◌, length, get_elem?, ℤ, pos, negsuc, Bytes, codes, eq_text,
  starts_with,
}
use risc_v_rv32i_multi_cycle.Utils.{split_string}
use risc_v_rv32i_multi_cycle.Commands.{
  Command, none_given, exit, nstep, hcstep, flstep, signal, set_reg, change_reg, enable_delay,
  delay_time, mem_range, mem_modify, load_prog, set_pc, set_break, mem_scroll_up, mem_scroll_dwn,
  run_to, set_step_size, halt, enable_free, enable_break, enable_stepping, enable_irq, set_irq,
  set_irq_dur, trigger_irq,
}
use risc_v_rv32i_multi_cycle.Ncurses.{Terminal, Screen, draw, move, addch}
use risc_v_rv32i_multi_cycle.Console.{Console, start_cmd_line_col, clear_cmd_line}

-- `fields.size() > i ? fields[i] : d`
abbrev field_or : List Bytes → ℕ → Bytes → Bytes
field_or fields i d = elim (get_elem? fields i) [ none ↦ d | some f ↦ f ]

-- The commands whose first argument is read whether it is there or not; the second one keeps its
-- old value if it is missing.
with_fields : Command → Console → Option Console
with_fields k c =
    let fields = split_string c.key_buffer in
    do
      a ← get_elem? fields 1
      some (record c { cmd = k; arg1 = a; arg2 = field_or fields 2 c.arg2 })

-- `ss`: the first argument only.
with_field : Command → Console → Option Console
with_field k c = do
  a ← get_elem? (split_string c.key_buffer) 1
  some (record c { cmd = k; arg1 = a })

-- The commands with a default for a missing argument, and those with two of them.
with_default : Command → Bytes → Console → Console
with_default k d c = record c { cmd = k; arg1 = field_or (split_string c.key_buffer) 1 d }

with_defaults : Command → Bytes → Bytes → Console → Console
with_defaults k d e c =
    let fields = split_string c.key_buffer in
    record c { cmd = k; arg1 = field_or fields 1 d; arg2 = field_or fields 2 e }

-- The `else if` ladder over the prefixes of the line, from `irqt` down.
irq_line : Console → Console
unfolding with_default
irq_line c =
    let b = c.key_buffer in
    if starts_with (codes "irqt") b
    then with_default set_irq (codes "0") c
    else if starts_with (codes "irqd") b
    then with_default set_irq_dur (codes "0") c
    else if starts_with (codes "irq") b
    then with_default enable_irq (codes "off") c
    else c

-- From `ld` down.
control_line : Console → Console
unfolding with_default
control_line c =
    let b = c.key_buffer in
    if starts_with (codes "ld") b
    then with_default load_prog (codes "ebreak") c
    else if starts_with (codes "pc") b
    then with_default set_pc (codes "0x0") c
    else if starts_with (codes "bra") b
    then with_default set_break (codes "0x0") c
    else if starts_with (codes "br") b
    then with_default enable_break (codes "off") c
    else if starts_with (codes "fr") b
    then with_default enable_free (codes "on") c
    else if starts_with (codes "stp") b
    then with_default enable_stepping (codes "off") c
    else irq_line c

-- From `delay` down.
setting_line : Console → Console
unfolding with_default with_defaults
setting_line c =
    let b = c.key_buffer in
    if starts_with (codes "delay") b
    then with_default enable_delay (codes "off") c
    else if starts_with (codes "dt") b
    then with_default delay_time (codes "10") c
    else if starts_with (codes "srg") b
    then with_default set_reg (codes "0") c
    else if starts_with (codes "crg") b
    then with_defaults change_reg (codes "0") (codes "0") c
    else if starts_with (codes "mr") b
    then with_default mem_range (codes "0") c
    else if starts_with (codes "mm") b
    then with_defaults mem_modify (codes "0") (codes "0") c
    else control_line c

-- The four lines that are compared whole.
step_line : Console → Console
step_line c =
    let b = c.key_buffer in
    if eq_text b (codes "halt") || eq_text b (codes "h")
    then record c { cmd = halt }
    else if eq_text b (codes "ns")
    then record c { cmd = nstep }
    else if eq_text b (codes "hc")
    then record c { cmd = hcstep }
    else if eq_text b (codes "fl")
    then record c { cmd = flstep }
    else setting_line c

-- The whole ladder.
pub parse_line : Console → Option Console
unfolding with_fields with_field
parse_line c =
    let b = c.key_buffer in
    if starts_with (codes "rn") b
    then with_fields run_to c
    else if starts_with (codes "sg") b
    then with_fields signal c
    else if starts_with (codes "ss") b
    then with_field set_step_size c
    else some (step_line c)

abbrev pub is_key : ℤ → ℕ → Bool
is_key (pos n) k = n == k
is_key (negsuc n) k = false

-- `keyBuffer.substr(0, keyBuffer.size() - 1)`; an empty text stays empty.
abbrev pub drop_last : Bytes → Bytes
drop_last [] = []
drop_last (c ∷ []) = []
drop_last (c ∷ d ∷ s) = c ∷ drop_last (d ∷ s)

-- A blank line repeats the previous command.
abbrev recalled : Console → Console
recalled c = record c { key_buffer = if eq_text c.key_buffer [] then c.last_cmd else c.key_buffer }

module _ (t : Terminal) where
  open t use {lines, key_backspace, key_up, key_down, key_home}

  backspace : Console → Console
  unfolding draw
  backspace c =
      if ltb 1 c.col
      then record c {
        col = c.col - 1;
        key_buffer = drop_last c.key_buffer;
        screen = record (draw (move (lines - 1) c.col ∷ addch b' ' ∷ []) c.screen) {
          data_dirty = true;
        };
      }
      else c

  type_char : ℕ → Console → Console
  unfolding draw
  type_char n c = record c {
    col = c.col + 1;
    key_buffer = c.key_buffer ++ n ∷ [];
    screen = record (draw (move (lines - 1) (c.col + 1) ∷ addch n ∷ []) c.screen) {
      data_dirty = true;
    };
  }

  -- What follows the ladder.
  finish_line : Console → Console
  unfolding clear_cmd_line
  finish_line c = record c {
    last_cmd = c.key_buffer;
    key_buffer = [];
    screen = clear_cmd_line t (record c.screen { data_dirty = true });
  }

  enter_line : Console → Option Console
  enter_line c =
      if eq_text c.key_buffer [] then some c else (do d ← parse_line c; some (finish_line d))

  abbrev at_start : Console → Console
  at_start c = record c {
    col = start_cmd_line_col;
    screen = draw (move (lines - 1) start_cmd_line_col ∷ []) c.screen;
  }

  enter : Console → Option Console
  enter c = enter_line (recalled (at_start c))

  printable : ℤ → Console → Console
  printable (pos n) c = if leb b' ' n && ltb n b'~' then type_char n c else c
  printable (negsuc n) c = c

  abbrev with_cmd : Console → Console × Command
  with_cmd c = (c, c.cmd)

  -- `key` is what `getch` answers.
  handle_key : ℤ → Console → Option (Console × Command)
  handle_key key c' =
      let c = record c' { ch = key; cmd = none_given } in
      if is_key key b'`'
      then some (record c { exit_console = true }, exit)
      else if is_key key key_backspace
      then some (with_cmd (backspace c))
      else if is_key key key_up
      then some (with_cmd (record c { cmd = mem_scroll_up }))
      else if is_key key key_down
      then some (with_cmd (record c { cmd = mem_scroll_dwn }))
      else if is_key key key_home
      then some (with_cmd (record c { cmd = trigger_irq }))
      else if is_key key 10
      then (do d ← enter c; some (with_cmd d))
      else some (with_cmd (printable key c))

  -- The same function, which opens with all that it calls.
  unfoldable pub handle_input : ℤ → Console → Option (Console × Command)
  unfolding handle_key backspace enter enter_line parse_line step_line setting_line control_line
      irq_line with_default with_defaults with_field with_fields finish_line printable type_char
      draw clear_cmd_line
  handle_input = handle_key
