-- ===== src/P2p/Stream/Lifetime.antt =====
-- The life of the registry: streams are registered, and each of the two goroutines of a stream ends
-- once, in any order.
use bock_ipfs.Base.{
  ◌==◌, if◌then◌else◌, ==_iff, nat_eq, string_eq, ℕ, ◌+◌, ◌^◌, ◌<◌, ◌≡◌, ap, ◌∙◌, Bool, true, false,
  none, ◌∷◌, arith,
}
use bock_ipfs.Base.Dict.{lookup, lookup-delete}
use bock_ipfs.P2p.Stream.{
  Stream, close_local, close_remote, reset_remote, StreamRegistry, empty, register, drop_conn,
  deregister, copy_done,
}
use bock_ipfs.P2p.Stream.Registry.{
  IsConsistent, register-IsConsistent, copy_done-IsConsistent, empty-IsConsistent,
}

-- A caller registers a stream, or a copy ends of a stream that has been registered at some time.
pub data Step (r : StreamRegistry) : StreamRegistry → Type 0 where
  opened : (s : Stream) → r.next_id + 1 < 2 ^ 64 → Step r (register r s)
  ended : (s : Stream) (failed : Bool) → s.id < r.next_id → Step r (copy_done r s failed)

pub data Reach : StreamRegistry → Type 0 where
  here : Reach empty
  next : {r t : StreamRegistry} → Reach r → Step r t → Reach t

Step-IsConsistent : {r t : StreamRegistry} → Step r t → IsConsistent r → IsConsistent t
Step-IsConsistent (opened s room) c = register-IsConsistent _ s c room
Step-IsConsistent (ended s failed known) c = copy_done-IsConsistent _ s failed c

-- In every reachable registry, in whatever order streams open and their copies end, a peer's
-- count is the number of its open streams and the peer is tagged exactly while one is open.
pub Reach-IsConsistent : {r : StreamRegistry} → Reach r → IsConsistent r
Reach-IsConsistent here = empty-IsConsistent
Reach-IsConsistent (next old step) = Step-IsConsistent step (Reach-IsConsistent old)

deregister-lookup :
    (r : StreamRegistry) (i j : ℕ)
    → lookup j (deregister r i).streams ≡ (if i == j then none else lookup j r.streams)
unfolding deregister drop_conn
deregister-lookup r i j = ground (arith, lookup-delete i j r.streams, ==_iff i j)

deregister_absent : (r : StreamRegistry) (i : ℕ) → lookup i r.streams ≡ none → deregister r i ≡ r
unfolding deregister
deregister_absent r i h = rw (h, deregister)

copy_done-lookup :
    (r : StreamRegistry) (s : Stream) (failed : Bool) (j : ℕ)
    → lookup j (copy_done r s failed).streams ≡ (if s.id == j then none else lookup j r.streams)
unfolding copy_done
copy_done-lookup r s true j = deregister-lookup _ s.id j
copy_done-lookup r s false j = deregister-lookup _ s.id j

copy_done_absent :
    (r : StreamRegistry) (s : Stream) (failed : Bool)
    → lookup s.id r.streams ≡ none
    → ((copy_done r s failed).streams ≡ r.streams) × ((copy_done r s failed).conns ≡ r.conns)
unfolding copy_done
copy_done_absent r s true h =
    let same =
      deregister_absent
        (record r { effects = reset_remote s.remote_stream ∷ close_local s.local_conn ∷ r.effects })
        s.id h in
    (ap (λ (t : StreamRegistry). t.streams) same, ap (λ (t : StreamRegistry). t.conns) same)
copy_done_absent r s false h =
    let same =
      deregister_absent
        (record r { effects = close_remote s.remote_stream ∷ close_local s.local_conn ∷ r.effects })
        s.id h in
    (ap (λ (t : StreamRegistry). t.streams) same, ap (λ (t : StreamRegistry). t.conns) same)

-- Ending a stream, by `Close` or `Reset`, removes it and no other, and the second goroutine of
-- the same stream then changes neither the streams nor the counts.
pub copy_done_twice :
    (r : StreamRegistry) (s : Stream) (first second : Bool)
    → ((j : ℕ)
        → lookup j (copy_done r s first).streams ≡ (if s.id == j then none else lookup j r.streams))
      × ((copy_done (copy_done r s first) s second).streams ≡ (copy_done r s first).streams)
      × ((copy_done (copy_done r s first) s second).conns ≡ (copy_done r s first).conns)
copy_done_twice r s first second =
    let again =
      copy_done_absent (copy_done r s first) s second
        (copy_done-lookup r s first s.id ∙ ground arith) in
    (copy_done-lookup r s first, again.0, again.1)
