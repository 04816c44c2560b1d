-- ===== src/Client/Reuse.antt =====
-- Reusing a client: `NewProxmoxClientFromRef` of pkg/proxmox/connection.go.
use kubemox.Base.{
  Bool, Option, Text, [], arith, bytes, false, none, some, text_eq, text_eq_refl, true, ℕ, ◌∷◌, ◌≡◌,
}
use kubemox.Client.FromRef.{cached_client_fresh, new_client_from_ref, usable_client}
use kubemox.World.Call.{Call}
use kubemox.World.Monad.{
  CachedClient, World, fail, gets, handle, logged, modify, ok, on_option, perform, return, ◌>>=◌,
}

abbrev client_in : Option CachedClient → Option ℕ
client_in none = none
client_in (some c) = some c.client

abbrev version_in : Option CachedClient → Text → Bool
version_in none v = false
version_in (some c) v = text_eq c.resource_version v

-- The client that was returned is cached, with the version of the connection that was read.
client_is_cached :
    (name : Text) (w w' : World) (pc : ℕ)
    → new_client_from_ref (some name) w ≡ ok pc w'
    → (client_in (w'.client_cache name) ≡ some pc)
      × (version_in (w'.client_cache name) (w.env.stored_connection w.trace name).resource_version
          ≡ true)
unfolding new_client_from_ref usable_client handle perform gets modify return fail on_option ◌>>=◌
client_is_cached name w w' pc h =
    ground (
      arith,
      text_eq_refl name,
      text_eq_refl (w.env.stored_connection w.trace name).resource_version,
    )

abbrev pub connection_read : Text → Call
connection_read name = Call.kube_get (bytes "ProxmoxConnection") [] name

-- Where a client was returned, and the connection is read again with the version it had then, the same
-- client is returned if the cached one is still fresh, and the read of the connection is the only call:
-- no credentials are read.
pub new_client_from_ref-again :
    (name : Text) (w w' : World) (pc : ℕ) (cached : CachedClient)
    → new_client_from_ref (some name) w ≡ ok pc w'
    → w'.client_cache name ≡ some cached
    → w'.env.failure w'.trace (connection_read name) ≡ none
    → (w'.env.stored_connection w'.trace name).resource_version
      ≡ (w.env.stored_connection w.trace name).resource_version
    → cached_client_fresh
        (w'.env.clock (record { call = connection_read name; succeeded = true } ∷ w'.trace))
        cached
      ≡ true
    → new_client_from_ref (some name) w' ≡ ok pc (logged (connection_read name) true w')
unfolding new_client_from_ref usable_client handle perform gets modify return fail on_option ◌>>=◌
new_client_from_ref-again name w w' pc cached h c f v t =
    ground (arith, client_is_cached name w w' pc h)
