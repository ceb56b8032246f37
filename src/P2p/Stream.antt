-- ===== src/P2p/Stream.antt =====
-- kubo-master/p2p/stream.go: the registry of the active streams, which counts the streams of each
-- peer and keeps the peer tagged in the connection manager as long as one is open.
pub mod Registry
pub mod Lifetime
mod Tests
use bock_ipfs.Base.{
  ltb, if◌then◌else◌, nat_eq, string_eq, ℕ, ◌+◌, ◌-◌, ◌%◌, ◌^◌, String, Bool, Option, none, some,
  List, [], ◌∷◌,
}
use bock_ipfs.Base.Dict.{Dict, lookup, insert, delete}

-- `const cmgrTag`
abbrev pub cmgr_tag : String
cmgr_tag = "stream-fwd"

-- `type Stream`: the ends are handles, and the registry that it points to is the only one.
pub record Stream : Type 0 where
  pub id : ℕ
  pub protocol : String
  pub origin_addr : String
  pub target_addr : String
  pub peer : String
  pub local_conn : ℕ
  pub remote_stream : ℕ

-- What the code asks of the connection manager, of the ends of a stream and of the scheduler.
pub data Effect : Type 0 where
  tag_peer : String → String → ℕ → Effect
  untag_peer : String → String → Effect
  start_streaming : ℕ → Effect
  close_local close_remote reset_remote : ℕ → Effect

-- `type StreamRegistry`; `effects` are the calls made on other components, the last one first.
pub record StreamRegistry : Type 0 where
  pub streams : Dict ℕ Stream
  pub conns : Dict String ℕ
  pub next_id : ℕ
  pub effects : List Effect

-- the registry that `New` of p2p.go builds
abbrev pub empty : StreamRegistry
empty = record { streams = []; conns = []; next_id = 0; effects = [] }

-- `r.conns[p]`, which is 0 where the key is missing
abbrev pub or_zero : Option ℕ → ℕ
or_zero none = 0
or_zero (some n) = n

abbrev pub conns_of : StreamRegistry → String → ℕ
conns_of r p = or_zero (lookup p r.conns)

-- `Register`, with `nextID` a uint64
pub register : StreamRegistry → Stream → StreamRegistry
register r s = record {
  streams = insert r.next_id (record s { id = r.next_id }) r.streams;
  conns = insert s.peer (conns_of r s.peer + 1) r.conns;
  next_id = (r.next_id + 1) % 2 ^ 64;
  effects = start_streaming r.next_id ∷ tag_peer s.peer cmgr_tag 20 ∷ r.effects;
}

-- The body of `Deregister` for a stream that was found. The count is an int in the source: at
-- 0 it would become -1, which is below 1 as the 0 here is.
drop_conn : StreamRegistry → ℕ → Stream → StreamRegistry
drop_conn r stream_id s =
    let left = conns_of r s.peer - 1 in
    if ltb left 1
    then record {
      streams = delete stream_id r.streams;
      conns = delete s.peer (insert s.peer left r.conns);
      next_id = r.next_id;
      effects = untag_peer s.peer cmgr_tag ∷ r.effects;
    }
    else record r { streams = delete stream_id r.streams; conns = insert s.peer left r.conns }

pub deregister : StreamRegistry → ℕ → StreamRegistry
unfolding drop_conn
deregister r stream_id = elim (lookup stream_id r.streams) [
  | none ↦ r
  | some s ↦ drop_conn r stream_id s
]

-- `StreamRegistry.Close`
pub close : StreamRegistry → Stream → StreamRegistry
unfolding deregister
close r s =
    deregister
      (record r { effects = close_remote s.remote_stream ∷ close_local s.local_conn ∷ r.effects })
      s.id

-- `StreamRegistry.Reset`
pub reset : StreamRegistry → Stream → StreamRegistry
unfolding deregister
reset r s =
    deregister
      (record r { effects = reset_remote s.remote_stream ∷ close_local s.local_conn ∷ r.effects })
      s.id

-- One of the two goroutines of `startStreaming`, when its `io.Copy` returns.
pub copy_done : StreamRegistry → Stream → Bool → StreamRegistry
unfolding close reset
copy_done r s failed = if failed then reset r s else close r s
