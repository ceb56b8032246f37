-- ===== src/Gc.antt =====
-- kubo-master/gc/gc.go: the mark and sweep garbage collector.
pub mod Library
pub mod Memory
pub mod Mark
pub mod Sweep
pub mod Trigger
