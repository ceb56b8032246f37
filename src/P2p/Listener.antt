-- ===== src/P2p/Listener.antt =====
-- kubo-master/p2p/listener.go, local.go and remote.go: the groups of listeners.
pub mod Closing
mod Tests
use bock_ipfs.Base.{
  if◌then◌else◌, nat_eq, string_eq, length, ℕ, String, Bool, ◌&&◌, Option, none, some, List, [],
  ◌∷◌, ◌++◌,
}
use bock_ipfs.Base.Dict.{Dict, lookup, insert, delete, has_key}

-- The two implementations of `Listener`: `localListener`, with its protocol, listen address and
-- peer, and `remoteListener`, with its protocol, target address and `reportRemote`.
pub data Listener : Type 0 where
  local_listener : String → String → String → Listener
  remote_listener : String → String → Bool → Listener

-- `Protocol()`
pub protocol : Listener → String
protocol (local_listener proto laddr peer) = proto
protocol (remote_listener proto addr report) = proto

-- `key()`
unfoldable pub key : Listener → String
key (local_listener proto laddr peer) = laddr
key (remote_listener proto addr report) = proto

pub data RegisterError : Type 0 where
  already_registered : RegisterError

-- `type Listeners`; `closed` are the listeners whose `close()` was called, the last one first.
pub record Listeners : Type 0 where
  pub listeners : Dict String Listener
  pub closed : List Listener

-- `newListenersLocal`, and the registry that `newListenersP2P` makes
abbrev pub empty : Listeners
empty = record { listeners = []; closed = [] }

-- `Register`; a result of none is the nil error
pub register : Listeners → Listener → Listeners × Option RegisterError
unfolding key
register r l =
    if has_key (key l) r.listeners
    then (r, some already_registered)
    else (record r { listeners = insert (key l) l r.listeners }, none)

-- The match function and the stream handler that `newListenersP2P` sets: a stream of a protocol
-- is accepted if it is a key, and goes to the listener that is found.
pub accepts : Listeners → String → Bool
accepts r p = has_key p r.listeners

pub dispatch : Listeners → String → Option Listener
dispatch r p = lookup p r.listeners

-- The loop of `Close` under the lock: `todo` are the listeners taken out so far.
close_loop :
    (Listener → Bool)
    → Dict String Listener
    → Dict String Listener
    → List Listener
    → Dict String Listener × List Listener
close_loop match_func [] m todo = (m, todo)
close_loop match_func ((k, l) ∷ entries) m todo =
    let drop = match_func l && has_key (key l) m in
    close_loop match_func entries (if drop then delete (key l) m else m)
      (if drop then todo ++ l ∷ [] else todo)

-- `Close`: the listeners that match are taken out, then closed one by one, and counted.
pub close : (Listener → Bool) → Listeners → Listeners × ℕ
close match_func r =
    let (m, todo) = close_loop match_func r.listeners r.listeners [] in
    (record { listeners = m; closed = todo ++ r.closed }, length todo)
