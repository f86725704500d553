-- ===== src/Tests.antt =====
-- Runs of the definitions, and the theorems at concrete values.
mod Values
mod Utils
mod Console
mod Simulation
mod Bench
mod Pmmu
mod Alu
mod Units
mod Links
mod Designs
