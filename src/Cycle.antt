-- ===== src/Cycle.antt =====
-- uct_cycle.c: what the configuration becomes, and the loops of the worker threads.
pub mod Config
pub mod Worker
