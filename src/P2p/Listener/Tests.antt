-- ===== src/P2p/Listener/Tests.antt =====
-- Runs of the groups of listeners, and instances of their theorems.
use bock_ipfs.Base.Dict.{lookup, delete, has_key}
use bock_ipfs.Base.{str_eq, nat_eq, string_eq, ◌≡◌, refl, Bool, true, none, [], ◌∷◌}
use bock_ipfs.P2p.Listener.{
  Listener, local_listener, remote_listener, protocol, key, Listeners, dispatch, close_loop, close,
}
use bock_ipfs.P2p.Listener.Closing.{IsValid, close_lem}

abbrev ssh : Listener
ssh = remote_listener "/x/ssh" "/ip4/1" true

abbrev web : Listener
web = local_listener "/x/web" "/ip4/2" "alice"

abbrev both : Listeners
both = record { listeners = ("/x/ssh", ssh) ∷ ("/ip4/2", web) ∷ []; closed = [] }

abbrev is_web : Listener → Bool
is_web l = str_eq (protocol l) "/x/web"

close-web : close is_web both ≡ (record { listeners = ("/x/ssh", ssh) ∷ []; closed = web ∷ [] }, 1)
unfolding close protocol close_loop has_key key delete
close-web = refl

both-IsValid : IsValid both
unfolding key lookup
both-IsValid = record { unique = (refl, (refl, tt)); keyed = (refl, (refl, tt)) }

close_lem_example : (dispatch (close is_web both).0 "/ip4/2" ≡ none) × ((close is_web both).1 ≡ 1)
unfolding dispatch protocol lookup
close_lem_example = close_lem is_web both "/ip4/2" both-IsValid
