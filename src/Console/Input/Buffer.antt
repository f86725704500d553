-- ===== src/Console/Input/Buffer.antt =====
-- The line editor of `Console::handleInput`: the buffer, the caret's column, and the recall of the
-- previous command.
use risc_v_rv32i_multi_cycle.Prelude.{
  ℕ, ◌+◌, ◌-◌, ◌≤◌, ◌<◌, ◌≡◌, ◌≢◌, inl, inr, refl, ap, false, Option, some, [], ◌∷◌, ◌++◌, arith,
  All, All-append, Holds, Holds→, Option-cases, Bytes, length, length-append, ℤ, pos, negsuc, ◌>>=◌,
  eq_text→eq, Bool-cases, split_on, ltb, leb, ◌&&◌,
}
use risc_v_rv32i_multi_cycle.Commands.{Command, none_given}
use risc_v_rv32i_multi_cycle.Ncurses.{Terminal}
use risc_v_rv32i_multi_cycle.Console.{Console}
use risc_v_rv32i_multi_cycle.Console.Input.{
  handle_input, handle_key, parse_line, irq_line, control_line, setting_line, step_line, at_start,
  recalled, enter, enter_line, finish_line, drop_last, backspace, type_char, printable, with_cmd,
  is_key,
}

-- A character that is typed into the buffer. `~` is not one, nor is the back-tick, which ends the
-- program.
abbrev pub IsPrintable : ℕ → Type 0
IsPrintable n = (32 ≤ n) × (n < 126) × (n ≢ 96)

-- The caret stands behind the text, which holds printable characters.
pub record IsAligned (c : Console) : Type 0 where
  pub caret : c.col ≡ length c.key_buffer + 1
  pub printable : All IsPrintable c.key_buffer

length-drop_last : (s : Bytes) → length (drop_last s) ≡ length s - 1
length-drop_last [] = refl
length-drop_last (c ∷ []) = refl
length-drop_last (c ∷ d ∷ s) = omega (arith, length-drop_last (d ∷ s))

All-drop_last {ℓ} : (P : ℕ → Type ℓ) (s : Bytes) → All P s → All P (drop_last s)
All-drop_last P [] h = h
All-drop_last P (c ∷ []) h = tt
All-drop_last P (c ∷ d ∷ s) (h, hs) = (h, All-drop_last P (d ∷ s) hs)

drop_last-snoc : (s : Bytes) (n : ℕ) → drop_last (s ++ n ∷ []) ≡ s
drop_last-snoc [] n = refl
drop_last-snoc (c ∷ []) n = refl
drop_last-snoc (c ∷ d ∷ s) n = ap (λ t. c ∷ t) (drop_last-snoc (d ∷ s) n)

-- Understanding a line leaves the buffer and the caret alone.
abbrev pub SameLine : Console → Console → Type 0
SameLine c d = (d.key_buffer ≡ c.key_buffer) × (d.col ≡ c.col)

irq_line-SameLine : (c : Console) → SameLine c (irq_line c)
unfolding irq_line
irq_line-SameLine c = ground arith

control_line-SameLine : (c : Console) → SameLine c (control_line c)
unfolding control_line
control_line-SameLine c = ground (arith, irq_line-SameLine c)

setting_line-SameLine : (c : Console) → SameLine c (setting_line c)
unfolding setting_line
setting_line-SameLine c = ground (arith, control_line-SameLine c)

step_line-SameLine : (c : Console) → SameLine c (step_line c)
unfolding step_line
step_line-SameLine c = ground (arith, setting_line-SameLine c)

pub parse_line-SameLine : (c d : Console) → parse_line c ≡ some d → SameLine c d
unfolding parse_line
parse_line-SameLine c d h = ground (arith, step_line-SameLine c)

module _ (t : Terminal) where
  backspace-IsAligned : (c : Console) → IsAligned c → IsAligned (backspace t c)
  unfolding backspace
  backspace-IsAligned c h = elim (Bool-cases (ltb 1 c.col)) [
    | inl e ↦ rw e (record {
      caret = ground (arith, h.caret, length-drop_last c.key_buffer);
      printable = All-drop_last IsPrintable c.key_buffer h.printable;
    })
    | inr e ↦ rw e h
  ]

  type_char-IsAligned :
      (n : ℕ) (c : Console) → IsPrintable n → IsAligned c → IsAligned (type_char t n c)
  unfolding type_char
  type_char-IsAligned n c p h = record {
    caret = omega (arith, length-append c.key_buffer (n ∷ []), h.caret);
    printable = All-append IsPrintable c.key_buffer (n ∷ []) h.printable (p, tt);
  }

  enter_line_clears :
      (c d : Console) → c.col ≡ 1 → enter_line t c ≡ some d → (d.key_buffer ≡ []) × (d.col ≡ 1)
  unfolding enter_line finish_line
  enter_line_clears c d h e = grind (arith, eq_text→eq, parse_line-SameLine)

  enter_clears : (c d : Console) → enter t c ≡ some d → (d.key_buffer ≡ []) × (d.col ≡ 1)
  unfolding enter
  enter_clears c d e = enter_line_clears (recalled (at_start t c)) d refl e

  printable-IsAligned :
      (key : ℤ) (c : Console) → key ≢ pos 96 → IsAligned c → IsAligned (printable t key c)
  unfolding printable
  printable-IsAligned (pos n) c ne h = elim (Bool-cases (leb 32 n && ltb n 126)) [
    | inl e ↦ rw e (type_char-IsAligned n c (ground arith, ground arith, λ q. ne (ap pos q)) h)
    | inr e ↦ rw e h
  ]
  printable-IsAligned (negsuc n) c ne h = h

  abbrev Aligned : Option (Console × Command) → Type 0
  Aligned = Holds (λ r. IsAligned r.0)

  enter-Aligned : (c : Console) → Aligned (enter t c >>= λ d. some (with_cmd t d))
  enter-Aligned c = elim (Option-cases (enter t c)) [
    | inl e ↦ record { at = rw e tt }
    | inr found ↦
        let (d, e) = found in
        let (empty, front) = enter_clears c d e in
        record { at = rw e (record { caret = rw (empty, front); printable = rw empty tt }) }
  ]

  same : (c d : Console) → d.col ≡ c.col → d.key_buffer ≡ c.key_buffer → IsAligned c → IsAligned d
  same c d p q h = record { caret = ground (arith, h.caret); printable = rw q h.printable }

  not_tick : (key : ℤ) → is_key key b'`' ≡ false → key ≢ pos 96
  not_tick (pos n) h = ground arith
  not_tick (negsuc n) h = λ q. cc q

  handle_key-Aligned : (key : ℤ) (c : Console) → IsAligned c → Aligned (handle_key t key c)
  unfolding handle_key
  handle_key-Aligned key c h =
      split_on (is_key key b'`') (λ e. rw e (record { at = same c _ refl refl h }))
        λ typed. rw typed (
          split_on (is_key key t.key_backspace)
            (λ e. rw e (record { at = backspace-IsAligned _ polled }))
            λ e. rw e (
              split_on (is_key key t.key_up) (λ e. rw e (record { at = same c _ refl refl h }))
                λ e. rw e (
                  split_on (is_key key t.key_down)
                    (λ e. rw e (record { at = same c _ refl refl h }))
                    λ e. rw e (
                      split_on (is_key key t.key_home)
                        (λ e. rw e (record { at = same c _ refl refl h }))
                        λ e. rw e (
                          split_on (is_key key 10) (λ e. rw e (enter-Aligned _))
                            λ e. rw e (record {
                              at = printable-IsAligned key _ (not_tick key typed) polled;
                            }))))))
    where
      polled : IsAligned (record c { ch = key; cmd = none_given })
      polled = same c _ refl refl h

  -- Every poll of the keyboard with a defined result keeps the caret behind the text, and only printable characters in
  -- it: no key, whatever `getch` answers, gets another byte into a command line.
  pub handle_input-IsAligned :
      (key : ℤ) (c d : Console) (k : Command)
      → IsAligned c
      → handle_input t key c ≡ some (d, k)
      → IsAligned d
  handle_input-IsAligned key c d k h e =
      Holds→ (d, k) (handle_key-Aligned key c h) (unfold handle_input in e)
