-- ===== src/Console/Input/Typing.antt =====
-- Whole lines: what is typed and entered is understood, and a blank line repeats it
-- (`Console::handleInput`).
use risc_v_rv32i_multi_cycle.Prelude.{
  ℕ, ◌≡◌, inl, inr, refl, sym, ap, ◌∙◌, false, Option, none, some, List, [], ◌∷◌, ◌++◌, arith, All,
  All-append, Option-cases, Bytes, ℤ, pos, append_assoc, append-nil, ◌>>=◌, map, eq_text,
}
use risc_v_rv32i_multi_cycle.Commands.{Command, none_given}
use risc_v_rv32i_multi_cycle.Ncurses.{Terminal}
use risc_v_rv32i_multi_cycle.Utils.Split.{IsWord}
use risc_v_rv32i_multi_cycle.Console.{Console}
use risc_v_rv32i_multi_cycle.Console.Input.{
  handle_input, handle_key, parse_line, type_char, with_cmd, enter, enter_line, finish_line,
}
use risc_v_rv32i_multi_cycle.Console.Input.Buffer.{IsPrintable, parse_line-SameLine}
use risc_v_rv32i_multi_cycle.Console.Input.Lines.{
  Keyword, spelling, meaning, rn, understood, parse_line-spelling,
}

-- What a poll leaves: its command, the first argument, the line to repeat, and the buffer.
abbrev pub entered : Option (Console × Command) → Option (Command × Bytes × Bytes × Bytes)
entered none = none
entered (some (c, k)) = some (k, c.arg1, c.last_cmd, c.key_buffer)

module _ (t : Terminal) where
  typed_char :
      (n : ℕ) (c : Console)
      → IsPrintable n
      → handle_input t (pos n) c
        ≡ some (type_char t n (record c { ch = pos n; cmd = none_given }), none_given)
  unfolding handle_input
  typed_char n c p = ground (arith, t.backspace_above, t.up_above, t.down_above, t.home_above)

  -- The keyboard is polled once for each key; the commands that come out are left aside.
  pub feed : List ℤ → Console → Option Console
  feed [] c = some c
  feed (key ∷ keys) c = do r ← handle_input t key c; feed keys r.0

  feed_typed :
      (w : Bytes) (c : Console)
      → All IsPrintable w
      → (d : Console) × (feed (map pos w) c ≡ some d)
        × (d.key_buffer ≡ c.key_buffer ++ w)
        × (d.last_cmd ≡ c.last_cmd)
  unfolding feed type_char
  feed_typed [] c h = (c, refl, sym (append-nil c.key_buffer), refl)
  feed_typed (n ∷ w) c (h, hs) =
      let next = type_char t n (record c { ch = pos n; cmd = none_given }) in
      let (d, fed, buffer, last) = feed_typed w next hs in
      (d, rw (typed_char n c h) fed, buffer ∙ append_assoc c.key_buffer (n ∷ []) w, last)

  handle_input-eq : (key : ℤ) (c : Console) → handle_input t key c ≡ handle_key t key c
  unfolding handle_input
  handle_input-eq key c = refl

  -- The return key is no special key.
  enter_key :
      (c : Console)
      → handle_key t (pos 10) c
        ≡ (enter t (record c { ch = pos 10; cmd = none_given }) >>= λ d. some (with_cmd t d))
  unfolding handle_key
  enter_key c = ground (arith, t.backspace_above, t.up_above, t.down_above, t.home_above)

  spelled-ne-nil : (k : Keyword) (a : Bytes) → eq_text (spelling k ++ 32 ∷ a) [] ≡ false
  spelled-ne-nil rn a = refl
  spelled-ne-nil _ a = refl

  enter_line-spelling :
      (k : Keyword) (a : Bytes) (c : Console)
      → IsWord a
      → c.key_buffer ≡ spelling k ++ 32 ∷ a
      → entered (enter_line t c >>= λ d. some (with_cmd t d))
        ≡ some (meaning k, a, spelling k ++ 32 ∷ a, [])
  unfolding enter_line finish_line
  enter_line-spelling k a c h e =
      let nonblank : eq_text c.key_buffer [] ≡ false = rw e (spelled-ne-nil k a) in
      let parsed = parse_line-spelling k a c h e in
      elim (Option-cases (parse_line c)) [
        | inl none_read ↦ absurd (cc (parsed, ap understood none_read))
        | inr (d, read) ↦
            rw (nonblank, read)
              (cc (parsed, ap understood read, (parse_line-SameLine c d read).0, e))
      ]

  spelling-IsPrintable : (k : Keyword) → All IsPrintable (spelling k)
  spelling-IsPrintable rn = omega arith
  spelling-IsPrintable _ = omega arith

  line-IsPrintable :
      (k : Keyword) (a : Bytes) → All IsPrintable a → All IsPrintable (spelling k ++ 32 ∷ a)
  line-IsPrintable k a p =
      All-append IsPrintable (spelling k) (32 ∷ a) (spelling-IsPrintable k) (omega arith, p)

  enter_line_typed :
      (k : Keyword) (a : Bytes) (d : Console)
      → IsWord a
      → d.key_buffer ≡ spelling k ++ 32 ∷ a
      → entered (handle_input t (pos 10) d) ≡ some (meaning k, a, spelling k ++ 32 ∷ a, [])
  unfolding enter
  enter_line_typed k a d h b =
      let nonblank : eq_text d.key_buffer [] ≡ false = rw b (spelled-ne-nil k a) in
      rw (handle_input-eq (pos 10) d, enter_key d) (enter_line-spelling k a _ h (rw nonblank b))

  -- A keyword, a blank and a printable word, typed into an empty buffer and entered, come out as
  -- the keyword's command with the word as first argument; the line is kept for repetition and
  -- the buffer is empty again.
  pub enter-spelling :
      (k : Keyword) (a : Bytes) (c : Console)
      → IsWord a
      → All IsPrintable a
      → c.key_buffer ≡ []
      → (d : Console) × (feed (map pos (spelling k ++ 32 ∷ a)) c ≡ some d)
        × (entered (handle_input t (pos 10) d) ≡ some (meaning k, a, spelling k ++ 32 ∷ a, []))
  enter-spelling k a c h p e =
      let (d, fed, buffer, _) = feed_typed (spelling k ++ 32 ∷ a) c (line-IsPrintable k a p) in
      (d, fed, enter_line_typed k a d h (buffer ∙ ap (λ s. s ++ (spelling k ++ 32 ∷ a)) e))

  -- On an empty buffer the return key repeats the last line: the command and its argument are
  -- those of that line, and it stays the line to repeat.
  enter-repeats :
      (k : Keyword) (a : Bytes) (c : Console)
      → IsWord a
      → c.key_buffer ≡ []
      → c.last_cmd ≡ spelling k ++ 32 ∷ a
      → entered (handle_input t (pos 10) c) ≡ some (meaning k, a, spelling k ++ 32 ∷ a, [])
  unfolding enter
  enter-repeats k a c h e l =
      rw (handle_input-eq (pos 10) c, enter_key c) (enter_line-spelling k a _ h (rw e l))
