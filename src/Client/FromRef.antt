-- ===== src/Client/FromRef.antt =====
-- The global cache of clients: `NewProxmoxClientFromRef` of pkg/proxmox/connection.go, and the
-- credentials that a new client is built from, pkg/proxmox/credentials.go.
use kubemox.Api.{ObservedSecret}
use kubemox.Base.{
  Bool, List, Option, Text, [], bytes, false, if◌then◌else◌, ltb, none, not, some, text_eq, ℕ, ◌&&◌,
  ◌++◌, ◌+◌, ◌-◌, ◌==◌, ◌||◌, ◌∷◌,
}
use kubemox.Client.Cache.{no_entries, set_text}
use kubemox.GuestName.Defs.{conn, list}
use kubemox.World.Call.{Call}
use kubemox.World.Env.{Connection, SecretKeyReference}
use kubemox.World.Error.{is_kube_not_found, message, other, wrap}
use kubemox.World.Monad.{
  Action, CachedClient, World, fail, gets, handle, modify, on_option, perform, return, ◌>>=◌, ◌>>◌,
}

pub record Credentials : Type 0 where
  pub password : Text
  pub secret : Text
  pub observed_secrets : List ObservedSecret

is_empty : Text → Bool
is_empty s = text_eq s []

-- `resolveCredential`, from the inline value and the reference
unfoldable pub resolve_credential :
    Text → Text → Text → Option SecretKeyReference → Action (Text × Option ObservedSecret)
unfolding is_empty
resolve_credential inline_field inline ref_field ref = on_option ref (return (inline, none)) λ r.
    if not (is_empty inline)
    then fail (
        other (
          bytes "both " ++ inline_field ++ bytes " and " ++ ref_field ++ bytes " are set; use one"))
    else (do
      history ← gets (λ w. w.trace)
      handle (perform (Call.kube_get (bytes "Secret") r.namespace r.name))
          (λ e.
            if is_kube_not_found e
            then fail (
                other (
                  ref_field
                  ++ bytes ": secret "
                  ++ r.namespace
                  ++ bytes "/"
                  ++ r.name
                  ++ bytes " not found"))
            else fail (
                wrap
                  (ref_field
                    ++ bytes ": reading secret "
                    ++ r.namespace
                    ++ bytes "/"
                    ++ r.name
                    ++ bytes ": "
                    ++ message e)
                  e))
          (λ _. do
            found ← gets (λ w. w.env.stored_secret history r.namespace r.name)
            on_option (found.contents r.key)
                (fail (
                  other (
                    ref_field
                    ++ bytes ": key not found in secret "
                    ++ r.namespace
                    ++ bytes "/"
                    ++ r.name)))
                (λ value.
                  if is_empty value
                  then fail (
                      other (
                        ref_field
                        ++ bytes ": key is empty in secret "
                        ++ r.namespace
                        ++ bytes "/"
                        ++ r.name))
                  else return (
                    value,
                    some (record {
                      name = found.name;
                      namespace = found.namespace;
                      resource_version = found.resource_version;
                    }),
                  ))))

-- `containsSecret`
unfoldable pub contains_secret : List ObservedSecret → ObservedSecret → Bool
contains_secret [] want = false
contains_secret (got ∷ list) want =
    (text_eq got.namespace want.namespace && text_eq got.name want.name)
    || contains_secret list want

-- One round of the loop that collects the observed secrets.
unfoldable pub observe : List ObservedSecret → Option ObservedSecret → List ObservedSecret
observe seen none = seen
observe seen (some o) = if contains_secret seen o then seen else seen ++ o ∷ []

-- `ResolveCredentials`
unfoldable pub resolve_credentials : Connection → Action Credentials
resolve_credentials spec = do
  (password, password_from) ←
      resolve_credential (bytes "password") spec.password (bytes "passwordFrom") spec.password_from
  (secret, secret_from) ←
      resolve_credential (bytes "secret") spec.secret (bytes "secretFrom") spec.secret_from
  return (record {
    password = password;
    secret = secret;
    observed_secrets = observe (observe [] password_from) secret_from;
  })

-- `clientCacheTTL`, in seconds
abbrev pub client_cache_ttl : ℕ
client_cache_ttl = 3600

-- `cachedClientFresh`, at the time `now`
unfoldable pub cached_client_fresh : ℕ → CachedClient → Bool
cached_client_fresh now cached =
    not cached.uses_session || ltb (now - cached.created_at) client_cache_ttl

-- The cached client, if it may still be used.
unfoldable pub usable_client : ℕ → Connection → Option CachedClient → Option ℕ
usable_client now conn none = none
usable_client now conn (some cached) =
    if text_eq cached.resource_version conn.resource_version && cached_client_fresh now cached
    then some cached.client
    else none

-- `NewProxmoxClientWithCredentials`: a client with empty caches.
abbrev pub new_client : ℕ → World → World
new_client pc w = record w {
  caches = λ p. if p == pc then no_entries else w.caches p;
  next_client = pc + 1;
}

-- `NewProxmoxClientFromRef`
unfoldable pub new_client_from_ref : Option Text → Action ℕ
unfolding is_empty
new_client_from_ref ref =
    on_option ref (fail (other (bytes "ProxmoxConnection reference is nil or empty"))) λ name.
      if is_empty name
      then fail (other (bytes "ProxmoxConnection reference is nil or empty"))
      else (do
        history ← gets (λ w. w.trace)
        handle (perform (Call.kube_get (bytes "ProxmoxConnection") [] name))
            (λ e. fail (wrap (bytes "getting ProxmoxConnection: " ++ message e) e))
            (λ _. do
              conn ← gets (λ w. w.env.stored_connection history name)
              usable ← gets (λ w. usable_client (w.env.clock w.trace) conn (w.client_cache name))
              on_option usable
                  (do
                    handle (resolve_credentials conn)
                        (λ e. fail (wrap (bytes "resolving credentials: " ++ message e) e))
                        (λ _. do
                          pc ← gets (λ w. w.next_client)
                          modify (λ w. record (new_client pc w) {
                            client_cache = set_text w.client_cache name (
                                some (record {
                                  client = pc;
                                  resource_version = conn.resource_version;
                                  created_at = w.env.clock w.trace;
                                  uses_session = not (is_empty conn.username);
                                }));
                          })
                          return pc))
                  return))
