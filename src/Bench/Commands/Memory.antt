-- ===== src/Bench/Commands/Memory.antt =====
-- The commands for the memory: `MemModify`, and scrolling (simulation/ranger_console/console_tb.cpp).
use risc_v_rv32i_multi_cycle.Prelude.{
  ℕ, ◌+◌, ◌-◌, ◌*◌, ◌≤◌, ◌<◌, ◌≡◌, refl, ap, ◌∙◌, some, none, ◌>>=◌, ℤ, pos, negsuc, arith, to_u32,
  lt→ltb, le→ltb_false, w32, if◌then◌else◌, ◌==◌,
}
use risc_v_rv32i_multi_cycle.Utils.{word_to_byte_addr}
use risc_v_rv32i_multi_cycle.Core.{Unpacked, update, write_word}
use risc_v_rv32i_multi_cycle.Console.{get_arg1_int, get_arg2_int}
use risc_v_rv32i_multi_cycle.Console.Memory.Rows.{show_memory_defined}
use risc_v_rv32i_multi_cycle.Bench.{App, store, redraw_memory, redraw_markers}
use risc_v_rv32i_multi_cycle.Bench.Commands.{
  modify_memory, scroll_to, row_above, row_below, with_model,
}

byte_addr : (n : ℕ) → n < 536870912 → word_to_byte_addr (pos n) ≡ pos (n * 4)
unfolding word_to_byte_addr
byte_addr n h = ground (arith, h)

store_inside :
    (n : ℕ) (value : ℤ) (m : Unpacked)
    → n < 256
    → store (word_to_byte_addr (pos n)) value m ≡ some (update m (n * 4) (to_u32 value))
unfolding store write_word
store_inside n value m h =
    ap (λ z. store z value m) (byte_addr n (omega (arith, h)))
    ∙ rw (lt→ltb (n * 4) 1024 (omega (arith, h))) refl

store_outside :
    (n : ℕ) (value : ℤ) (m : Unpacked)
    → 256 ≤ n
    → n < 536870912
    → store (word_to_byte_addr (pos n)) value m ≡ none
unfolding store write_word
store_outside n value m h l =
    ap (λ z. store z value m) (byte_addr n l)
    ∙ rw (le→ltb_false (n * 4) 1024 (omega (arith, h))) refl

module _ {H : Type 0} where
  -- Every word of the memory has 32 bits.
  abbrev pub AreWords : App H → Type 0
  AreWords a = (j : ℕ) → j < 1024 → a.mdl.core.mem j < w32

  -- The memory of both is drawn; the model is not touched.
  pub redraw_memory_lem :
      (a : App H) → AreWords a → (b : App H) × (redraw_memory a ≡ some b) × (b.mdl ≡ a.mdl)
  unfolding redraw_memory
  redraw_memory_lem a w =
      let (s, e) =
        show_memory_defined 2 70 a.mdl.from_addr 1024 a.mdl.core.mem a.con.screen (omega arith) w in
      (_, ap (λ o. o >>= λ x. some (record a { con = record a.con { screen = x } })) e, refl)

  redraw_markers-from_addr : (a : App H) → (redraw_markers a).mdl.from_addr ≡ a.mdl.from_addr
  unfolding redraw_markers
  redraw_markers-from_addr a = refl

  -- Scrolling has a result for every first address, if every word of the memory has 32 bits.
  scroll_to_lem :
      (n : ℤ) (a : App H)
      → AreWords a
      → (b : App H) × (scroll_to n a ≡ some b) × (b.mdl.from_addr ≡ n)
  unfolding scroll_to
  scroll_to_lem n a w =
      let (b, e, same) = redraw_memory_lem (with_model a (record a.mdl { from_addr = n })) w in
      (
        redraw_markers b,
        ap (λ o. o >>= λ x. some (redraw_markers x)) e,
        redraw_markers-from_addr b ∙ ap (λ m. m.from_addr) same,
      )

  -- From a first address below 1024, both scroll commands have a result and move the dump by one
  -- address; at 0 and at 1023 they stay. (Every word of the memory has 32 bits.)
  scroll_lem :
      (n : ℕ) (a : App H)
      → a.mdl.from_addr ≡ pos n
      → n < 1024
      → AreWords a
      → ((b : App H) × (scroll_to (row_above a.mdl.from_addr) a ≡ some b)
          × (b.mdl.from_addr ≡ pos (n - 1)))
        × ((b : App H) × (scroll_to (row_below a.mdl.from_addr) a ≡ some b)
            × (b.mdl.from_addr ≡ (if n == 1023 then pos 1023 else pos (n + 1))))
  scroll_lem n a e h w =
      let (b, up, at) = scroll_to_lem (row_above a.mdl.from_addr) a w in
      let (c, down, at') = scroll_to_lem (row_below a.mdl.from_addr) a w in
      ((b, up, at ∙ rw e above), (c, down, at' ∙ rw e below))
    where
      above : row_above (pos n) ≡ pos (n - 1)
      above = ground (arith, h)

      below : row_below (pos n) ≡ (if n == 1023 then pos 1023 else pos (n + 1))
      below = ground (arith, h)

  -- `mm n value` multiplies `n` by four and writes the word at that index, which is not the word
  -- that the memory dump shows at `n`; from 256 on the index is out of range. (`n` is below 2 ^ 29,
  -- and every word of the memory has 32 bits.)
  pub modify_memory_lem :
      (n : ℕ) (value : ℤ) (a : App H)
      → get_arg1_int a.con ≡ some (pos n)
      → get_arg2_int a.con ≡ some value
      → n < 536870912
      → AreWords a
      → (n < 256
          → (b : App H) × (modify_memory a ≡ some b)
            × (b.mdl.core.mem ≡ update a.mdl.core.mem (n * 4) (to_u32 value)))
        × (256 ≤ n → modify_memory a ≡ none)
  unfolding modify_memory
  modify_memory_lem n value a e e' h w =
      (inside, λ l. rw (e, e', store_outside n value a.mdl.core.mem l h) refl)
    where
      words : (v : ℤ) (j : ℕ) → j < 1024 → update a.mdl.core.mem (n * 4) (to_u32 v) j < w32
      words (pos v) j l = ground (arith, w j l)
      words (negsuc v) j l = ground (arith, w j l)

      inside :
          n < 256
          → (b : App H) × (modify_memory a ≡ some b)
            × (b.mdl.core.mem ≡ update a.mdl.core.mem (n * 4) (to_u32 value))
      inside l =
          let m = update a.mdl.core.mem (n * 4) (to_u32 value) in
          let c = with_model a (record a.mdl {
            mem_addr = word_to_byte_addr (pos n);
            core = record a.mdl.core { mem = m };
          }) in
          let (b, drawn, same) = redraw_memory_lem c (words value) in
          (b, rw (e, e', store_inside n value a.mdl.core.mem l) drawn, ap (λ x. x.core.mem) same)
