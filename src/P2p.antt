-- ===== src/P2p.antt =====
-- kubo-master/p2p: the registry of forwarded streams and the registries of listeners.
pub mod Stream
pub mod Listener
