-- ===== src/Pins.antt =====
-- kubo-master/core/coreapi/pin.go: the pin API. Verify has `Verify`, Listing has `Ls` and
-- `pinLsAll`; the other children prove.
pub mod Verify
pub mod Listing
pub mod Changing
pub mod Reference
mod Meaning
mod Locking
mod Listed
mod Streams
mod Sending
mod Priority
mod Checking
mod Tests
mod Runs
