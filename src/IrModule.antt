-- ===== src/IrModule.antt =====
-- The test bench simulation/instruction_register: IR_tb.cpp with reset_sequence.cpp, fetch.cpp and
-- misc.cpp. The design, and the numbers of three of its states, are parameters.
use risc_v_rv32i_multi_cycle.Prelude.{
  ℕ, zero, suc, ◌+◌, ◌-◌, ◌*◌, Bool, true, false, ◌&&◌, ◌||◌, not, List, [], ◌∷◌, ◌++◌, ◌==◌,
  if◌then◌else◌, Bytes, codes, pos,
}
use risc_v_rv32i_multi_cycle.Core.{Unpacked, flip}
use risc_v_rv32i_multi_cycle.Utils.{int_to_string, emit}
use risc_v_rv32i_multi_cycle.Pmmu.Bench.{hex}
use risc_v_rv32i_multi_cycle.Pmmu.Program.{dump_rows}
use risc_v_rv32i_multi_cycle.ResetSequence.{Resettable, Ran, after_dump, run_on, reset_sequence}
pub mod Verdict

-- The fields of the generated classes that the program reads or writes, and a rest.
pub record IrModule (H : Type 0) : Type 0 where
  pub clk_i : ℕ
  pub reset_i : ℕ
  pub mem_busy_i : ℕ
  pub ir_i : ℕ
  pub state : ℕ
  pub vector_state : ℕ
  pub next_vector_state : ℕ
  pub reset_complete : ℕ
  pub ready : ℕ
  pub cm_to_ir_ld : ℕ
  pub ir_out : ℕ
  pub mem : Unpacked
  pub hidden : H

-- `ResetState::Vector0`, `ResetState::Vector1` and `MatrixState::Fetch`.
pub record States : Type 0 where
  pub vector0 : ℕ
  pub vector1 : ℕ
  pub fetch : ℕ

-- `dumpMem`
abbrev dump_ends : Unpacked → List Bytes
dump_ends m =
    codes "--------Top Mem-------" ∷ dump_rows m 0 25
    ++ codes "--------Bottom Mem-------" ∷ dump_rows m 1020 4

abbrev pub rule : Bytes
rule = codes "###########################################"

-- An assertion behind the reset: three lines, and the failure, where it does not hold.
abbrev failure_lines : Bool → ℕ → Bytes → List Bytes
failure_lines true now text = []
failure_lines false now text =
    rule ∷ (codes "# (" ++ hex now ++ codes ") expected " ++ text) ∷ rule ∷ []

-- What a sequence leaves: the lines, whether it failed, the time and the design.
pub record Checked (H : Type 0) : Type 0 where
  pub lines : List Bytes
  pub failed : Bool
  pub time_step : ℕ
  pub unit : IrModule H

-- The program: the lines, the exit code, the time and the design.
pub record Exited (H : Type 0) : Type 0 where
  pub lines : List Bytes
  pub code : ℕ
  pub time_step : ℕ
  pub unit : IrModule H

-- The lines up to the end of the reset sequence.
abbrev pub lines_before : {H : Type 0} → IrModule H → Checked H → List Bytes
lines_before d s = codes "Setting up" ∷ codes "Time (0) " ∷ dump_ends d.mem ++ s.lines

module _ {H : Type 0} (eval : IrModule H → IrModule H) (states : States) where
  abbrev pub ir_lines : Resettable (IrModule H)
  ir_lines = record {
    eval = eval;
    turn_clock = λ d. record d { clk_i = flip d.clk_i };
    set_reset = λ v d. record d { reset_i = v };
    reset_line = λ d. d.reset_i;
  }

  -- `reset_sequence`: the loop, and the four assertions. `resetComplete` and `ready` are bytes, which
  -- the stream prints as characters.
  unfoldable pub checked_reset : ℕ → ℕ → ℕ → IrModule H → Checked H
  checked_reset time base duration d =
      let r =
        reset_sequence ir_lines hex time base duration (record d { mem_busy_i = 0; ir_i = 0 }) in
      let u = r.unit in
      let now = r.time_step - 1 in
      let a = u.vector_state == states.vector0 in
      let b = u.next_vector_state == states.vector1 in
      let c = not (u.reset_complete == 1) in
      let e = not (u.ready == 1) in
      record {
        lines =
            r.lines
            ++ failure_lines a now (codes "Vector0 reached")
            ++ failure_lines b now (codes "next_vector_state=Vector1 ")
            ++ failure_lines c now (codes "resetComplete=1, got: " ++ u.reset_complete ∷ [])
            ++ failure_lines e now (codes "ready=1, got: " ++ u.ready ∷ [])
            ++ (codes "--- Reset TB complete at " ++ hex r.time_step ++ codes " ---") ∷ [];
        failed = not (a && b && c && e);
        time_step = r.time_step;
        unit = u;
      }

  -- So many rounds of the loop of `fetch_sequence`, with `prv_ir_ld` and `fetch_state_reached`.
  unfoldable pub fetch_rounds : ℕ → ℕ → ℕ → Bool → IrModule H → Checked H
  fetch_rounds zero time before reached d = record {
    lines = [];
    failed = false;
    time_step = time;
    unit = d;
  }
  fetch_rounds (suc n) time before reached d =
      let u = eval d in
      let now = u.state == states.fetch in
      let r =
        fetch_rounds n (suc time) u.cm_to_ir_ld (reached || now)
          (after_dump ir_lines time (eval u)) in
      record r {
        lines =
            (if now && not reached
              then (codes "Fetch occurred at " ++ int_to_string (pos time)) ∷ []
              else [])
            ++ (if (reached || now) && (before == 0 && u.cm_to_ir_ld == 1)
                then (codes "("
                    ++ int_to_string (pos time)
                    ++ codes ") ir_out: 0x"
                    ++ emit 16 8 u.ir_out []
                    ++ codes " ")
                  ∷ []
                else [])
            ++ r.lines;
      }

  -- `fetch_sequence`: the loop runs while `timeStep <= baseTime + 100`, whatever the duration.
  unfoldable pub fetch_sequence : ℕ → ℕ → ℕ → IrModule H → Checked H
  unfolding fetch_rounds
  fetch_sequence time base duration d =
      let d0 = eval d in
      let r = fetch_rounds (base + 100 + 1 - time) time d0.cm_to_ir_ld false d0 in
      record r {
        lines =
            (codes "("
                ++ int_to_string (pos time)
                ++ codes ") to ("
                ++ int_to_string (pos (base + duration))
                ++ codes ") Fetch TB begin.")
              ∷ r.lines
            ++ (codes "--- Fetch TB complete at "
                ++ int_to_string (pos r.time_step)
                ++ codes " ---")
              ∷ [];
      }

  -- The rest of `main` behind the reset, which has not failed.
  unfoldable pub fetched : List Bytes → Checked H → Exited H
  unfolding fetch_sequence run_on
  fetched lines s =
      let f = fetch_sequence s.time_step s.time_step 45 s.unit in
      let r = run_on ir_lines 75 f.time_step f.unit in
      record {
        lines =
            lines
            ++ f.lines
            ++ codes "Running to duration" ∷ codes "Finish TB." ∷ codes "Shutting down" ∷ [];
        code = 0;
        time_step = r.time_step;
        unit = r.unit;
      }

  -- `main`
  unfoldable pub ir_main : IrModule H → Exited H
  unfolding checked_reset fetched
  ir_main d =
      let d0 = eval d in
      let s = checked_reset 0 10 45 d0 in
      let lines = lines_before d0 s in
      if s.failed
      then record {
        lines = lines ++ codes "Shutting down" ∷ [];
        code = 1;
        time_step = s.time_step;
        unit = s.unit;
      }
      else fetched lines s
