-- ===== src/P2p/Stream/Registry.antt =====
-- The invariant of the registry: the count of a peer is the number of its open streams.
use bock_ipfs.Base.{
  ◌==◌, str_eq, if◌then◌else◌, Option-cases, nat_eq, string_eq, ℕ, ◌+◌, ◌-◌, ◌^◌, ◌<◌, String, ◌≡◌,
  refl, ◌∙◌, inl, inr, Bool, true, false, not, none, some, List, [], ◌∷◌, arith, eq_iff,
}
use bock_ipfs.Base.Dict.{
  lookup, insert, lookup-insert, lookup-delete, IsUnique, insert-IsUnique, delete-IsUnique, count,
  count-insert_new, count-delete,
}
use bock_ipfs.P2p.Stream.{
  Stream, Effect, tag_peer, untag_peer, start_streaming, close_local, close_remote, reset_remote,
  StreamRegistry, empty, conns_of, register, drop_conn, deregister, copy_done,
}

-- the number of streams of peer `p`
abbrev pub open_streams : StreamRegistry → String → ℕ
open_streams r p = count (λ s. str_eq s.peer p) r.streams

-- Is `p` tagged in the connection manager, after these calls?
abbrev pub is_tagged : String → List Effect → Bool
is_tagged p [] = false
is_tagged p (tag_peer q t n ∷ es) = if str_eq q p then true else is_tagged p es
is_tagged p (untag_peer q t ∷ es) = if str_eq q p then false else is_tagged p es
is_tagged p (start_streaming i ∷ es) = is_tagged p es
is_tagged p (close_local c ∷ es) = is_tagged p es
is_tagged p (close_remote c ∷ es) = is_tagged p es
is_tagged p (reset_remote c ∷ es) = is_tagged p es

pub record IsConsistent (r : StreamRegistry) : Type 0 where
  pub unique : IsUnique r.streams
  pub keyed : (k : ℕ) (s : Stream) → lookup k r.streams ≡ some s → (k < r.next_id) × (s.id ≡ k)
  -- a peer with no stream has no entry, any other has the number of its streams
  pub counted :
      (p : String)
      → lookup p r.conns ≡ (if open_streams r p == 0 then none else some (open_streams r p))
  pub tagged : (p : String) → is_tagged p r.effects ≡ not (open_streams r p == 0)

fresh : {r : StreamRegistry} → IsConsistent r → lookup r.next_id r.streams ≡ none
fresh {r} c = elim (Option-cases (lookup r.next_id r.streams)) [
  | inl free ↦ free
  | inr (s, e) ↦ absurd (omega (arith, c.keyed r.next_id s e))
]

module _ (r : StreamRegistry) (s : Stream) (c : IsConsistent r) where
  abbrev stored : Stream
  stored = record s { id = r.next_id }

  counted-register :
      (p : String)
      → open_streams (register r s) p ≡ open_streams r p + (if str_eq s.peer p then 1 else 0)
  unfolding register
  counted-register p = count-insert_new (λ t. str_eq t.peer p) r.next_id _ r.streams (fresh c)

  -- `Register` keeps the invariant, unless the 64-bit counter of ids wraps round.
  pub register-IsConsistent : r.next_id + 1 < 2 ^ 64 → IsConsistent (register r s)
  unfolding register
  register-IsConsistent room = record {
    unique = insert-IsUnique r.next_id _ r.streams c.unique;
    keyed = λ k t h. ground (arith, lookup-insert r.next_id k stored r.streams, c.keyed k t);
    counted = λ p. ground (
      arith,
      lookup-insert s.peer p (conns_of r s.peer + 1) r.conns,
      c.counted p,
      counted-register p,
      eq_iff s.peer p,
    );
    tagged = λ p. ground (arith, c.tagged p, counted-register p);
  }

module _ (r : StreamRegistry) (i : ℕ) (s : Stream) (c : IsConsistent r)
    (found : lookup i r.streams ≡ some s) where
  counted-drop_conn :
      (p : String)
      → open_streams (drop_conn r i s) p + (if str_eq s.peer p then 1 else 0) ≡ open_streams r p
  unfolding drop_conn
  counted-drop_conn p =
      ground (arith, count-delete (λ t. str_eq t.peer p) i s r.streams c.unique found)

  drop_conn-IsConsistent : IsConsistent (drop_conn r i s)
  unfolding drop_conn
  drop_conn-IsConsistent = record {
    unique = ground (arith, delete-IsUnique i r.streams c.unique);
    keyed = λ k t. ground (arith, lookup-delete i k r.streams, c.keyed k t);
    counted = λ p. ground (
      arith,
      lookup-insert s.peer p (conns_of r s.peer - 1) r.conns,
      lookup-delete s.peer p (insert s.peer (conns_of r s.peer - 1) r.conns),
      c.counted p,
      c.counted s.peer,
      counted-drop_conn p,
      counted-drop_conn s.peer,
      eq_iff s.peer p,
      eq_iff s.peer s.peer,
    );
    tagged = λ p. ground (
      arith,
      c.tagged p,
      c.counted s.peer,
      counted-drop_conn p,
      counted-drop_conn s.peer,
      eq_iff s.peer p,
      eq_iff s.peer s.peer,
    );
  }

-- `Deregister` keeps the invariant, whether or not the id is registered.
pub deregister-IsConsistent :
    (r : StreamRegistry) (i : ℕ) → IsConsistent r → IsConsistent (deregister r i)
unfolding deregister
deregister-IsConsistent r i c = elim (Option-cases (lookup i r.streams)) [
  | inl absent ↦ rw (absent, deregister) c
  | inr (s, e) ↦ rw (e, deregister) (drop_conn-IsConsistent r i s c e)
]

-- closing the ends of a stream tags and untags nobody
logged-IsConsistent :
    (r : StreamRegistry) (es : List Effect)
    → ((p : String) → is_tagged p es ≡ is_tagged p r.effects)
    → IsConsistent r
    → IsConsistent (record r { effects = es })
logged-IsConsistent r es same c = record {
  unique = c.unique;
  keyed = c.keyed;
  counted = c.counted;
  tagged = λ p. same p ∙ c.tagged p;
}

-- When one direction of a stream ends, cleanly or not, the invariant holds again.
pub copy_done-IsConsistent :
    (r : StreamRegistry) (s : Stream) (failed : Bool)
    → IsConsistent r
    → IsConsistent (copy_done r s failed)
unfolding copy_done
copy_done-IsConsistent r s true c =
    deregister-IsConsistent _ s.id (logged-IsConsistent r _ (λ p. refl) c)
copy_done-IsConsistent r s false c =
    deregister-IsConsistent _ s.id (logged-IsConsistent r _ (λ p. refl) c)

pub empty-IsConsistent : IsConsistent empty
unfolding lookup
empty-IsConsistent = record {
  unique = tt;
  keyed = λ k s h. cc;
  counted = λ p. refl;
  tagged = λ p. refl;
}
