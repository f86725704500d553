-- ===== src/Tests/Console.antt =====
-- The theorems on the console, at concrete values.
use risc_v_rv32i_multi_cycle.Prelude.{
  ℕ, ◌%◌, ◌<◌, ◌≡◌, refl, ◌↔◌, false, none, some, length, [], ◌∷◌, ◌++◌, map, arith, All, Bytes,
  codes, pos, negsuc,
}
use risc_v_rv32i_multi_cycle.Utils.{split_string}
use risc_v_rv32i_multi_cycle.Utils.Split.{IsWord}
use risc_v_rv32i_multi_cycle.Commands.{none_given}
use risc_v_rv32i_multi_cycle.Ncurses.{Screen}
use risc_v_rv32i_multi_cycle.Core.{Unpacked}
use risc_v_rv32i_multi_cycle.Console.{Console}
use risc_v_rv32i_multi_cycle.Console.Input.{handle_input, parse_line}
use risc_v_rv32i_multi_cycle.Console.Input.Lines.{
  spelling, meaning, mr, ReadsUnchecked, parse_line-none,
}
use risc_v_rv32i_multi_cycle.Console.Input.Buffer.{IsAligned, IsPrintable, handle_input-IsAligned}
use risc_v_rv32i_multi_cycle.Console.Input.Typing.{entered, feed, enter-spelling}
use risc_v_rv32i_multi_cycle.Console.Memory.{show_memory}
use risc_v_rv32i_multi_cycle.Console.Memory.Rows.{show_memory_defined}
use risc_v_rv32i_multi_cycle.Tests.Values.{terminal, console_with}

abbrev word : Bytes
word = codes "0x10"

word-IsWord : IsWord word
word-IsWord = ((λ e. cc e), ground arith)

word-IsPrintable : All IsPrintable word
word-IsPrintable = omega arith

abbrev line : Bytes
line = spelling mr ++ 32 ∷ word

-- A line that is a keyword alone.
abbrev alone : Console
alone = console_with (codes "rn") []

parse_line-none_example :
    (parse_line alone ≡ none)
    ↔ (ReadsUnchecked alone.key_buffer × (length (split_string alone.key_buffer) < 2))
parse_line-none_example = parse_line-none alone

enter-spelling_example :
    (d : Console) × (feed terminal (map pos line) (console_with [] []) ≡ some d)
    × (entered (handle_input terminal (pos 10) d) ≡ some (meaning mr, word, line, []))
enter-spelling_example =
    enter-spelling terminal mr word (console_with [] []) word-IsWord word-IsPrintable refl

line-IsAligned : IsAligned (console_with line [])
line-IsAligned = record { caret = refl; printable = omega arith }

abbrev no_key : Console
no_key = record (console_with line []) { ch = negsuc 0; cmd = none_given }

no_key_runs : handle_input terminal (negsuc 0) (console_with line []) ≡ some (no_key, none_given)
unfolding handle_input
no_key_runs = refl

handle_input-IsAligned_example : IsAligned no_key
handle_input-IsAligned_example =
    handle_input-IsAligned terminal (negsuc 0) (console_with line []) no_key none_given
      line-IsAligned no_key_runs

abbrev blank : Screen
blank = record { calls = []; data_dirty = false; p_clk_state = 0 }

abbrev words : Unpacked
words i = i % 256

words_small : (j : ℕ) → j < 1024 → words j < 4294967296
words_small j h = omega arith

show_memory_defined_example : (s : Screen) × (show_memory 2 70 (negsuc 0) 1024 words blank ≡ some s)
show_memory_defined_example =
    show_memory_defined 2 70 (negsuc 0) 1024 words blank (omega arith) words_small
