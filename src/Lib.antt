-- ===== src/Lib.antt =====
-- The simulation console of the RangerRisc processor (simulation/ranger_console): a terminal
-- program that steps the verilated processor, shows its registers and memory, and takes commands
-- from a line at the bottom of the screen. Beside it, the test benches of hardware modules, programs of
-- their own: those of single modules (simulation/pmmu, alu, immediate, register_file, counter,
-- register, mux, memory, para_load_shift_reg and cross_domain_clock) and of an SPI master
-- (simulation/spi), each with the design that it drives; and those of the other serial links
-- (simulation/spi_* and uart*), of the instruction register and of the whole processor
-- (simulation/instruction_register, ranger_risc and ranger_microcode), over a design that is a
-- parameter.
--
-- The parts, and how they interact. A round of `main` polls the keyboard once
-- (`Console::handleInput`), does the command that comes out, and then lets the simulation go one
-- time step further or rest (`Model::canStep`); what is drawn comes from the model and the
-- processor's public fields.
--   Utils         simulation/ranger_console/utils.cpp: numbers to text and back, the fields of a
--                 line, word and byte addresses. Children: one theorem file to a conversion.
--   Commands      commands.h; RowIndices: row_indices.h.
--   Ncurses       the calls of ncurses as a list, in the order in which they are made, and what the
--                 terminal answers (key codes, size, colours) as the record `Terminal`.
--   Console       console.h and console.cpp. `Console.Input` is `handleInput`, with the ladder of
--                 keywords as `parse_line`; `Console.Labels`, `Console.Memory` and `Console.Show`
--                 are the show methods.
--   Core          the public fields of the classes that Verilator generates, in one record, and
--                 their memories as functions from indices.
--   Model         model.h.
--   Simulation    simulation.cpp. `eval`, the generated processor, is a parameter; that it does not
--                 write its own inputs is the hypothesis `KeepsInputs`.
--   Bench         console_tb.cpp: `main`. `Bench.Commands` is its switch, `Bench.Load` the loading of
--                 a program image from a file (the files are a parameter), `Bench.Rounds` its loop.
--   Pmmu          the test bench of the memory management unit, simulation/pmmu, a program of its own.
--                 `Pmmu` itself is the design that it runs, modules/Pmmu.sv and Memory.sv, evaluated
--                 by `eval`; `Pmmu.Bench` is misc.cpp and what the tests have in common, `Pmmu.Loads`
--                 and `Pmmu.Stores` the tests (unsigned_loads.cpp, signed_loads.cpp,
--                 stype_stores.cpp), `Pmmu.Program` is `main` of Pmmu_tb.cpp. The other children are
--                 proofs: `Pmmu.Bytes` and `Pmmu.Merging` about the memory as bytes, `Pmmu.Timing` and
--                 `Pmmu.Protocol` about the loops, `Pmmu.Sequence` and `Pmmu.Verdict` about `main`.
--   Alu           modules/ALU.sv at any width. `Alu.Bench` is the test benches of simulation/alu,
--                 `Alu.Waveform` and `Alu.Arithmetic` are proofs about them and about the operations.
--   Immediate     modules/Immediate.sv and the test bench simulation/immediate; `Immediate.Formats`
--                 puts instructions together and is what the unit is measured by.
--   RegisterFile  modules/RegisterFile.sv; `RegisterFile.Bench` is the test bench of
--                 simulation/register_file; `RegisterFile.Accesses` drives the unit with any accesses.
--   Counter       simulation/counter: the divider Counter.sv and its test bench.
--   Register, Mux the test benches simulation/register and simulation/mux, on modules/Register.sv and
--                 Mux4.sv.
--   Memory, ShiftRegister, Cdc
--                 the test benches simulation/memory, para_load_shift_reg and cross_domain_clock, on
--                 modules/Memory.sv, ParallelLoadShiftReg.sv and CDCSynchronizer.sv.
--   Spi           simulation/spi. `Spi.Protocol` is SPIProtocol.sv, a function to an `always_ff` block,
--                 `Spi.Master` is SPIMaster.sv and Top.sv, `Spi.Bench` the program SPI_tb.cpp, and
--                 `Spi.RoundTrip` the proof about them.
--   Serial        the programs of simulation/spi_sync, spi_sync3, spi_sync4, spi_slave, uart and
--                 uart_tx_multibyte (spi_sync2, 5 to 8 and uart_tx_rx_multibyte have the text of one of
--                 them). `Serial.Handshake` are those that wait for a port, `Serial.Timed` those that
--                 run for fixed times. `Serial.Request`, `Serial.Exchange` and `Serial.Clock` are
--                 proofs about them. SpiAlt: simulation/spi_alt.
--   ResetSequence the reset sequence that ranger_risc, ranger_microcode and instruction_register share,
--                 over the record `Resettable` of what it drives; Ranger and IrModule are the programs.
--   TestBench     the loops that these test benches have in common: moves at fixed times, and a step;
--                 `TestBench.Loops` and `TestBench.Waits` are the loops that wait for an edge of a port.
--   TypeEnums     the operations of the ALU, definitions/TypeEnums.sv.
--   Prelude       tests, lists, C integers and text for all of them; Tests: runs, and the theorems
--                 at concrete values.
--
-- Numbers. An `int` or `long` is a value of ℤ, with the conversions `to_u32`, `to_int` and `signed32`
-- where the code converts; a field of the processor is a native number, and counters that only go
-- up from 0 are too (`stepCnt` and `irqCnt` are not wrapped). `word_to_byte_addr` wraps, where the
-- code's overflow is undefined. `timeStep_ns` wraps at 2 ^ 64.
--
-- Undefined behaviour is `none`: a read or write out of range, a number that is never written
-- because a text holds none, a pointer behind the end of a literal.
--
-- Fuel. The loops of `run_to_fetch`, `run_to_execute`, `run_to_ebreak` and `run_to_pc` make at most
-- 100000 rounds and recurse on that number. `update_reset` makes 60 rounds after `begin_reset`, and
-- has fuel for 61. The first loop of `run_to_decode` has no bound and runs on fuel that its caller
-- gives; `none` is also what comes out when that is used up.
--
-- The waiting loops of the serial test benches have no bound either. `loop_until` runs them on fuel; the
-- two of simulation/spi end within 2000 rounds each. Over the other designs, which are parameters, a wait
-- can go on for good: `none` is what comes out when the fuel is used up.
--
-- The memory management unit. A loop body of a test is a list of moves, each at a time after the
-- test's base time; a loop makes as many rounds as there are steps until its end, and none if that is
-- past. A signal that Pmmu.sv declares with an expression follows it. The memory is a function from
-- all numbers, of which the unit reaches the cells below 1024; its contents are arbitrary, or begin
-- with those of the initial block of Memory.sv under `USE_STATIC` (`Pmmu.Verdict.power_on`).
--
-- The ALU. The operands of ALU_tb.cpp have 32 bits and take a width of 32, that of the processor.
-- What an operation outside the enumeration yields is not modelled.
--
-- The designs with one clock (Spi, Cdc, ShiftRegister, Memory, Counter, Register, RegisterFile) are
-- functions of their ports, of the clock that the last `eval` saw, and of their registers. The SPI master
-- has the parameters of simulation/spi/Top.sv: mode 0, four clocks to half a bit, two bytes to a chip
-- select, ten clocks between them.
--
-- Not modelled: the processor (modules/RangerRisc.sv and what it instantiates, reached through
-- `eval`), the designs of the serial links other than simulation/spi, which derive clocks of their own,
-- the test bench simulation/cpu, whose sequences no file defines, the waveform files that `dump` writes
-- but for the ports named above, what the terminal does with the calls, property.h,
-- which nothing uses, and the plain getters.
mod Prelude
pub mod Utils
pub mod Commands
pub mod Ncurses
pub mod Console
pub mod RowIndices
pub mod Core
pub mod TypeEnums
pub mod Alu
pub mod TestBench
pub mod Immediate
pub mod Counter
pub mod Register
pub mod Mux
pub mod RegisterFile
pub mod Model
pub mod Simulation
pub mod Bench
pub mod Pmmu
pub mod Spi
pub mod Serial
pub mod Cdc
pub mod ShiftRegister
pub mod ResetSequence
pub mod Ranger
pub mod IrModule
pub mod Memory
pub mod SpiAlt
mod Tests
