-- ===== src/Lib.antt =====
-- BockIPFS: a fork of Kubo, the IPFS node in Go, with two web front ends. The model covers parts of
-- the Go code under kubo-master/: the garbage collector and what triggers it, the p2p registries,
-- the key API and the pins, the opening, sharing, configuration and migration of repositories, the
-- plugin loader, the building of routers, and the values and options that configure the node. The
-- paths below are from the repository's root.
--
-- Gc: kubo-master/gc/gc.go. The pinner streams pins, `ColoredSet` (colored_set in Gc/Mark.antt) walks
--   from them with `Descendants` and returns the set of the keys to keep, and `GC` (gc in
--   Gc/Sweep.antt) takes their raw forms and deletes every other block. Channels are lists of what is
--   received, the end of the context is an event or a send that does not go through, and the walk,
--   the sets, the CIDs and the blockstore are records with their documented laws (Gc/Library.antt;
--   Gc/Memory.antt has an instance in memory, whose walk has fuel for 1000 steps, enough for its
--   test graphs). Where the context ends is given by Context, with the best-effort roots that are
--   sent before (Cut); a send that fails within a walk is an error of that walk. The blockstore has
--   a block for each multihash, and its keys are taken to be raw CIDv1s, as the code assumes. What
--   the theorems say of pins is of those that the pinner has streamed.
-- Gc/Trigger: kubo-master/core/corerepo/gc.go. `NewGC` computes the thresholds (new_gc),
--   `maybeGC` runs the collector above them (maybe_gc) and `CollectResult` gathers the results.
--   Machine integers keep their 64 bits.
-- P2p: kubo-master/p2p. The stream registry (P2p/Stream.antt) with `Register`, `Deregister`, `Close`,
--   `Reset` and the end of the two copying goroutines, which P2p/Stream/Lifetime.antt interleaves as
--   a step relation; the listeners (P2p/Listener.antt) with `Register`, `Close` and the dispatch of
--   incoming streams. Dialling and accepting are network I/O.
-- Keys: kubo-master/core/coreapi/key.go. Generate, List, Rename, Remove, Self, Sign and Verify, over a
--   keystore, a cryptography and IPNS names that are parameters (Keys/Library.antt). The tracing and
--   the contexts are left out. `Rename` takes the value of its one option.
-- Repo/OnlyOne: kubo-master/repo/onlyone.go. `Open` and `Close` over a heap of shared refs, whose
--   counts wrap round at 2^32.
-- Repo/Migrations: kubo-master/repo/fsrepo/migrations/migrations.go. `findMigrations`,
--   `fetchMigrations` and `RunMigration`, with the search path, the fetcher and the binaries as
--   parameters. The loop of `findMigrations` has as much fuel as there are versions to go, which
--   Repo/Migrations/Finding.antt shows to be enough; Repo/Migrations/Listing.antt says what it lists. The name of a migration is the pair of its
--   versions, and the goroutines that fetch are a map over the names, since each writes its own place.
--   Repo/Migrations/Fetchers.antt has `RetryFetcher`, `MultiFetcher` and `GetMigrationFetcher`, over a
--   world that the calls change; the HTTP and the IPFS fetchers are parameters.
-- Repo/Common: kubo-master/repo/common/common.go. `MapGetKV`, `MapSetKV` and `MapMergeDeep` over
--   nested maps as association lists. Since decoded JSON is a tree, no map is shared, and a change of
--   a nested map is a new map in the one around it.
-- Repo/FsRepo: kubo-master/repo/fsrepo/fsrepo.go. `open` with the lock file and `Close`, over what the
--   file system and the libraries answer (Host), and `SetConfig`, `SetConfigKey` and `GetConfigKey`
--   (Repo/FsRepo/Settings.antt), over the file's map and the conversions of configurations (Store),
--   with `CheckKey` of kubo-master/config/config.go. Repo/FsRepo/Creating.antt has `Init` over the three
--   files that it writes. `open` goes through Repo/OnlyOne in the program.
--   The package's mutex and the metrics are left out.
--   A write of the configuration may fail before or within the writing, or be lost without an error,
--   as its file is put in its place by a rename whose error the code drops.
-- Plugins: kubo-master/plugin/loader/loader.go. The loader's states and operations. What a plugin
--   answers to a call is any function of the calls before it (Respond).
-- Pins: kubo-master/core/coreapi/pin.go. `Verify` with the memory of `checkPin` (Pins/Verify.antt), whose
--   recursion over the links has fuel, and the height of a node in the graph is enough, as
--   Pins/Checking.antt shows; `Ls` and `pinLsAll` (Pins/Listing.antt), where the walk below a root is a
--   parameter that says which nodes are new and the sends are a list of whether they are received;
--   `Add`, `Rm`, `Update` and `IsPinned` (Pins/Changing.antt) as the calls that they make. A walk is
--   taken to stop at a send that fails, although it is concurrent.
-- Routing: kubo-master/routing/delegated.go and kubo-master/config/routing.go. `Parse` and `parse`, which
--   build the routers of a configuration after those that they are composed of, and `Methods.Check`
--   (Routing/Settings.antt). What the libraries make is a handle (Clients). `parse` has fuel, and one
--   more than the number of routers is enough, since every call visits a new one. The composer is the
--   list of the methods' routers, and the methods are taken in the order of the list.
-- Config: kubo-master/config/types.go. The values with a default are read from and written to JSON
--   values (Config/Json.antt), not bytes; the durations are not modelled.
-- Options/Unixfs: kubo-master/core/coreiface/options/unixfs.go. Every option is a constructor and
--   `UnixfsAddOptions` applies them and checks the outcome.
-- Bootstrap: kubo-master/core/commands/bootstrap.go. `bootstrapAdd`, `bootstrapRemove` and
--   `bootstrapRemoveAll` on the bootstrap list that the configuration holds in memory; what
--   `SetConfig` writes is that list, or nothing where it fails.
-- Base: shared helpers: tests on numbers and texts, lists, Go maps as association lists, signed
--   integers and results.
--
-- Not modelled: the commands and the HTTP interfaces, the construction of the node, FUSE, the
-- plugins themselves, the dispatch of the routing composer and the front ends. Of fsrepo the address
-- files are not modelled.
pub mod Base
pub mod Routing
pub mod Plugins
pub mod Pins
pub mod Bootstrap
pub mod Config
pub mod Options
pub mod Gc
pub mod P2p
pub mod Keys
pub mod Repo
