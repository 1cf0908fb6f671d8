-- ===== src/Profiler.antt =====
-- rdtsc/rdtsc_utils.h: the profiler's blocks and the macros that begin and end them.
pub mod Blocks
pub mod Nesting
pub mod Accounting
pub mod Totals
pub mod Frequency
