-- ===== src/Console/Input/Lines.antt =====
-- The command lines (the `else if` ladder of `Console::handleInput`): each keyword with its
-- argument is understood as its command, and which lines read a field that is not there.

use risc_v_rv32i_multi_cycle.Prelude.{
  ◌≡◌, ◌↔◌, ap, ◌∙◌, true, Option, none, some, List, [], ◌∷◌, ◌++◌, arith, Bytes, codes,
  starts_with, get_elem?, ◌<◌, length, ◌||◌,
}
use risc_v_rv32i_multi_cycle.Utils.{split_string}
use risc_v_rv32i_multi_cycle.Utils.Split.{IsWord, split_string-cons, split_string-word}
use risc_v_rv32i_multi_cycle.Commands.{
  Command, signal, set_reg, change_reg, enable_delay, delay_time, mem_range, mem_modify, load_prog,
  set_pc, set_break, run_to, set_step_size, enable_free, enable_break, enable_stepping, enable_irq,
  set_irq, set_irq_dur,
}
use risc_v_rv32i_multi_cycle.Console.{Console}
use risc_v_rv32i_multi_cycle.Console.Input.{
  parse_line, step_line, setting_line, control_line, irq_line,
}

-- The keywords that take an argument, as README.md lists them.
pub data Keyword : Type 0 where
  rn sg ss delay dt srg crg mr mm ld pc bra br fr stp irq irqt irqd : Keyword

abbrev pub spelling : Keyword → Bytes
spelling rn = codes "rn"
spelling sg = codes "sg"
spelling ss = codes "ss"
spelling delay = codes "delay"
spelling dt = codes "dt"
spelling srg = codes "srg"
spelling crg = codes "crg"
spelling mr = codes "mr"
spelling mm = codes "mm"
spelling ld = codes "ld"
spelling pc = codes "pc"
spelling bra = codes "bra"
spelling br = codes "br"
spelling fr = codes "fr"
spelling stp = codes "stp"
spelling irq = codes "irq"
spelling irqt = codes "irqt"
spelling irqd = codes "irqd"

abbrev pub meaning : Keyword → Command
meaning rn = run_to
meaning sg = signal
meaning ss = set_step_size
meaning delay = enable_delay
meaning dt = delay_time
meaning srg = set_reg
meaning crg = change_reg
meaning mr = mem_range
meaning mm = mem_modify
meaning ld = load_prog
meaning pc = set_pc
meaning bra = set_break
meaning br = enable_break
meaning fr = enable_free
meaning stp = enable_stepping
meaning irq = enable_irq
meaning irqt = set_irq
meaning irqd = set_irq_dur

spelling-IsWord : (k : Keyword) → IsWord (spelling k)
spelling-IsWord rn = ((λ e. cc e), ground arith)
spelling-IsWord _ = ((λ e. cc e), ground arith)

fields_of_line :
    (k : Keyword) (a : Bytes) → IsWord a → split_string (spelling k ++ 32 ∷ a) ≡ spelling k ∷ a ∷ []
fields_of_line k a h =
    split_string-cons (spelling k) a (spelling-IsWord k)
    ∙ ap (λ t. spelling k ∷ t) (split_string-word a h)

-- What the switch of `main` reads of a line: its command and its first argument.
abbrev pub understood : Option Console → Option (Command × Bytes)
understood none = none
understood (some c) = some (c.cmd, c.arg1)

-- A line of a keyword, a blank and a word is understood: the command is the keyword's, and the
-- first argument is the word.
pub parse_line-spelling :
    (k : Keyword) (a : Bytes) (c : Console)
    → IsWord a
    → c.key_buffer ≡ spelling k ++ 32 ∷ a
    → understood (parse_line c) ≡ some (meaning k, a)
unfolding parse_line step_line setting_line control_line irq_line
parse_line-spelling rn a c h e = rw (e, fields_of_line rn a h)
parse_line-spelling k a c h e = rw (e, fields_of_line k a h)

-- The lines that take their first field after the keyword without a test.
abbrev pub ReadsUnchecked : Bytes → Type 0
ReadsUnchecked b =
    (starts_with (codes "rn") b || starts_with (codes "sg") b || starts_with (codes "ss") b) ≡ true

second-none {ℓ} : {A : Type ℓ} (xs : List A) → (get_elem? xs 1 ≡ none) ↔ (length xs < 2)
second-none [] = ground arith
second-none (x ∷ []) = ground arith
second-none (x ∷ y ∷ xs) = ground arith

-- Reading a line is undefined exactly when it begins with `rn`, `sg` or `ss` and is a single
-- field (or none): `fields[1]` is then out of range.
pub parse_line-none :
    (c : Console)
    → (parse_line c ≡ none)
      ↔ (ReadsUnchecked c.key_buffer × (length (split_string c.key_buffer) < 2))
unfolding parse_line
parse_line-none c = ground (arith, second-none (split_string c.key_buffer))
