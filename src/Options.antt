-- ===== src/Options.antt =====
-- core/coreiface/options/: the settings that options build up, with their checks.
pub mod Unixfs
