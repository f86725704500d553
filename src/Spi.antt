-- ===== src/Spi.antt =====
-- The SPI master of simulation/spi and its test bench SPI_tb.cpp: the byte protocol, the chip select
-- state machine around it, the program that sends two bytes, and what comes back.
pub mod Protocol
pub mod Master
pub mod Bench
pub mod RoundTrip
