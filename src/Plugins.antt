-- ===== src/Plugins.antt =====
-- kubo-master/plugin/loader/loader.go: the life of the plugins of a node. Loader has the state,
-- Loading the plugins that come into it, Running the three steps to running plugins, and Stopping
-- their end; the other children prove.
pub mod Loader
pub mod Loading
pub mod Running
mod Phases
mod Stages
mod Naming
mod Life
mod Stopping
mod Starting
mod Tests
