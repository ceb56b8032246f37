-- ===== src/P2p/Stream/Tests.antt =====
-- Runs of the stream registry, and instances of its theorems.
use bock_ipfs.Base.{nat_eq, string_eq, ◌≡◌, refl, true, false, [], ◌∷◌, arith}
use bock_ipfs.Base.Dict.{lookup, insert, delete}
use bock_ipfs.P2p.Stream.{Stream, StreamRegistry, empty, register, copy_done}
use bock_ipfs.P2p.Stream.Registry.{is_tagged, IsConsistent}
use bock_ipfs.P2p.Stream.Lifetime.{opened, Reach, here, next, Reach-IsConsistent}

abbrev first_stream : Stream
first_stream = record {
  id = 0;
  protocol = "/x/ssh";
  origin_addr = "/ip4/1";
  target_addr = "/ip4/2";
  peer = "alice";
  local_conn = 7;
  remote_stream = 8;
}

abbrev two_open : StreamRegistry
two_open = register (register empty first_stream) first_stream

two_open-conns : (two_open.conns ≡ ("alice", 2) ∷ []) × (two_open.next_id ≡ 2)
unfolding register lookup insert
two_open-conns = (refl, refl)

-- both streams end, and each twice
abbrev drained : StreamRegistry
drained =
    let second : Stream = record first_stream { id = 1 } in
    copy_done
      (copy_done (copy_done (copy_done two_open first_stream true) second false) first_stream false)
      second true

drained-conns :
    (drained.conns ≡ []) × (drained.streams ≡ []) × (is_tagged "alice" drained.effects ≡ false)
unfolding register copy_done lookup insert delete
drained-conns = (refl, refl, refl)

one_open-Reach : Reach (register empty first_stream)
one_open-Reach = next here (opened first_stream (omega arith))

Reach-IsConsistent_example : IsConsistent (register empty first_stream)
Reach-IsConsistent_example = Reach-IsConsistent one_open-Reach
