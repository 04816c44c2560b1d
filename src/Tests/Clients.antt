-- ===== src/Tests/Clients.antt =====
-- The theorems on reusing a client and on uptimes, at concrete inputs.
use kubemox.Base.{bytes, false, refl, some, text_eq, true, ◌≡◌}
use kubemox.Client.FromRef.{
  cached_client_fresh, new_client_from_ref, observe, resolve_credential, resolve_credentials,
  usable_client,
}
use kubemox.Client.Reuse.{connection_read, new_client_from_ref-again}
use kubemox.Scenario.{no_failure, start}
use kubemox.World.Monad.{
  CachedClient, World, after, fail, gets, handle, logged, modify, ok, on_option, perform, return,
  ◌>>=◌,
}

abbrev calm : World
calm = start no_failure

abbrev connected : World
connected = after (new_client_from_ref (some (bytes "px")) calm)

abbrev first_client : CachedClient
first_client = record {
  client = 0;
  resource_version = bytes "1";
  created_at = 0;
  uses_session = false;
}

new_client_from_ref-again_example :
    new_client_from_ref (some (bytes "px")) connected
    ≡ ok 0 (logged (connection_read (bytes "px")) true connected)
unfolding new_client_from_ref resolve_credentials resolve_credential observe usable_client
    cached_client_fresh text_eq handle perform gets modify return fail on_option ◌>>=◌
new_client_from_ref-again_example =
    new_client_from_ref-again (bytes "px") calm connected 0 first_client refl refl refl refl refl
