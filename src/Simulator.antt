-- ===== src/Simulator.antt =====
-- simulator_8086/simulator.c: the machine, its handlers and the loop that runs a program.
pub mod Machine
pub mod Clocks
pub mod Execute
pub mod Run
pub mod Registers
pub mod Flags
pub mod Addressing
pub mod Rounds
pub mod Invariant
pub mod Jumping
pub mod Countdown
pub mod Arithmetic
pub mod Moving
