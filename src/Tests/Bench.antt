-- ===== src/Tests/Bench.antt =====
-- The theorems on the rounds and the commands of `main`, at concrete values.
use risc_v_rv32i_multi_cycle.Prelude.{
  ℕ, suc, ◌+◌, ◌*◌, ◌<◌, ◌≡◌, ◌≤◌, refl, inl, false, Option, none, some, arith, pos, to_u32, ltb,
  if◌then◌else◌, w32, List, [], ◌∷◌, ◌++◌, Bytes, negsuc, replicate,
}
use risc_v_rv32i_multi_cycle.Ncurses.{Screen}
use risc_v_rv32i_multi_cycle.Core.{Unpacked, update}
use risc_v_rv32i_multi_cycle.Bench.{App, startup}
use risc_v_rv32i_multi_cycle.Bench.Start.{startup_lem}
use risc_v_rv32i_multi_cycle.Bench.Load.{load_lines}
use risc_v_rv32i_multi_cycle.Bench.Load.Image.{image, load_lines-image}
use risc_v_rv32i_multi_cycle.Bench.Commands.{modify_memory}
use risc_v_rv32i_multi_cycle.Bench.Commands.Memory.{AreWords, modify_memory_lem}
use risc_v_rv32i_multi_cycle.Bench.Rounds.{tick, loop}
use risc_v_rv32i_multi_cycle.Bench.Rounds.Exit.{loop_lem}
use risc_v_rv32i_multi_cycle.Bench.Rounds.Refinement.{Selected, Shows, advance, tick_lem}
use risc_v_rv32i_multi_cycle.Bench.Rounds.Counting.{ticks, ticks_count}
use risc_v_rv32i_multi_cycle.Bench.Rounds.Pulse.{Pulsing, pulse_lasts}
use risc_v_rv32i_multi_cycle.Console.{get_arg1_int, get_arg2_int}
use risc_v_rv32i_multi_cycle.Tests.Values.{
  terminal, turn, turn-KeepsInputs, core_at, idle, app, quiet_app,
}

app-Selected : Selected app.mdl
app-Selected = record { index = 9; is_index = refl; in_bank = omega arith }

tick_lem_example :
    (b : App Unit) × (tick terminal turn app ≡ some b) × Shows (advance turn app.mdl) b
tick_lem_example = tick_lem terminal turn app app-Selected (omega arith)

app-Pulsing : Pulsing 3 0 app.mdl
app-Pulsing = record {
  enabled = refl;
  triggered = refl;
  counted = refl;
  duration = refl;
  stepping = refl;
  size = 20;
  is_size = refl;
  room = omega arith;
  selected = app-Selected;
  low = inl refl;
}

pulse_lasts_example :
    ((k : ℕ)
      → k < 4
      → (b : App Unit) × (ticks terminal turn (suc k) app ≡ some b) × (b.mdl.core.irq_i ≡ 0))
    × ((b : App Unit) × (ticks terminal turn 5 app ≡ some b)
        × (b.mdl.core.irq_i ≡ 1)
        × (b.mdl.irq_triggered ≡ false))
pulse_lasts_example = pulse_lasts turn turn-KeepsInputs terminal 3 app (omega arith) app-Pulsing

quiet-Selected : Selected quiet_app.mdl
quiet-Selected = record { index = 9; is_index = refl; in_bank = omega arith }

ticks_count_example :
    (b : App Unit) × (ticks terminal turn 25 quiet_app ≡ some b)
    × (b.mdl.step_cnt ≡ (if ltb 25 20 then 25 else 20))
    × (b.mdl.time_step_ns ≡ quiet_app.mdl.time_step_ns + (if ltb 25 20 then 25 else 20))
ticks_count_example =
    ticks_count terminal turn 20 25 quiet_app refl refl refl refl (omega arith) quiet-Selected
      (omega arith)

abbrev blank : Screen
blank = app.con.screen

small : (i : ℕ) → i < 3 → i + 7 < w32
small i h = omega arith

load_lines-image_example :
    (m' : Unpacked) × (load_lines (image 3 (λ i. i + 7)) ((λ i. 0), blank) ≡ some (m', blank))
    × ((i : ℕ) → i < 3 → m' i ≡ i + 7)
    × ((i : ℕ) → 3 ≤ i → m' i ≡ 0)
load_lines-image_example = load_lines-image 3 (λ i. i + 7) (λ i. 0) blank (omega arith) small

app-AreWords : AreWords app
app-AreWords j h = omega arith

arg1_runs : get_arg1_int app.con ≡ some (pos 2)
unfolding get_arg1_int
arg1_runs = refl

arg2_runs : get_arg2_int app.con ≡ some (pos 42)
unfolding get_arg2_int
arg2_runs = refl

modify_memory_lem_example :
    (2 < 256
      → (b : App Unit) × (modify_memory app ≡ some b)
        × (b.mdl.core.mem ≡ update app.mdl.core.mem (2 * 4) (to_u32 (pos 42))))
    × (256 ≤ 2 → modify_memory app ≡ none)
modify_memory_lem_example =
    modify_memory_lem 2 (pos 42) app arg1_runs arg2_runs (omega arith) app-AreWords

-- No file can be opened.
abbrev no_files : Bytes → Option (List Bytes)
no_files name = none

-- Three polls with no key, the back-tick, and an `m` that is not read.
loop_lem_example :
    (b : App Unit) × (loop terminal turn no_files 5
        (replicate 3 (negsuc 0) ++ pos 96 ∷ pos 109 ∷ [])
        quiet_app
      ≡ some b)
    × (b.looping ≡ false)
    × (b.mdl.step_cnt ≡ (if ltb 3 20 then 3 else 20))
    × (b.mdl.time_step_ns ≡ quiet_app.mdl.time_step_ns + (if ltb 3 20 then 3 else 20))
loop_lem_example =
    loop_lem terminal turn no_files 5 20 3 (pos 109 ∷ []) quiet_app refl refl refl refl refl
      (omega arith) quiet-Selected (omega arith)

first_words : (j : ℕ) → j < 1024 → (core_at 0 0).mem j < w32
first_words j h = omega arith

startup_lem_example :
    (a : App Unit) × (startup terminal idle (core_at 0 0) ≡ some a)
    × (a.mdl.core ≡ core_at 0 0)
    × (a.mdl.time_step_ns ≡ 1)
    × (a.mdl.break_addr ≡ pos 0x180)
    × (a.mdl.free_run ≡ false)
    × (a.mdl.stepping_enabled ≡ false)
startup_lem_example = startup_lem terminal idle (core_at 0 0) first_words
