-- ===== src/Controller/Connection.antt =====
-- internal/controller/proxmox/proxmoxconnection_controller.go. Log lines are left out.
use kubemox.Api.{Condition, ObservedSecret}
use kubemox.Base.{
  Bool, List, Option, Text, [], bytes, false, if◌then◌else◌, none, some, text_eq, ◌&&◌, ◌||◌, ◌∷◌,
}
use kubemox.Client.FromRef.{Credentials, new_client, resolve_credentials}
use kubemox.Controller.Mode.{Result, disable, dont_requeue, get_reconcile_mode, ignore_not_found}
use kubemox.World.Call.{Call}
use kubemox.World.Env.{Connection, SecretKeyReference}
use kubemox.World.Error.{message}
use kubemox.World.Monad.{Action, fail, gets, handle, modify, perform, return, ◌>>=◌, ◌>>◌}

abbrev pub connection_kind : Text
connection_kind = bytes "ProxmoxConnection"

-- The condition Ready.
abbrev ready : Text → Text → Text → Condition
ready status reason detail = record {
  type = bytes "Ready";
  status = status;
  reason = reason;
  message = detail;
  observed_generation = 0;
}

-- `GetVersion` of pkg/proxmox/connection.go; the client is not nil here.
unfoldable pub get_version : Action Text
get_version = do
  history ← gets (λ w. w.trace)
  perform Call.get_version
  gets (λ w. w.env.version history)

-- The status patch, whose error goes before the one that is given.
unfoldable pub patch_ready :
    Connection → Condition → Option Text → Option (List ObservedSecret) → Action (Unit {0})
patch_ready c condition version observed = do
  env ← gets (λ w. w.env)
  let (conditions, _) = env.set_condition c.conditions condition
  perform (Call.patch_connection c.metadata.name conditions version observed)

-- The lines of `Reconcile` behind the credentials.
unfoldable pub check_connection : Connection → Credentials → Action Result
check_connection c creds = do
  modify (λ w. new_client w.next_client w)
  handle get_version
      (λ e.
        patch_ready c (ready (bytes "False") (bytes "ProxmoxConnectionError") (message e)) none
          (some creds.observed_secrets)
        >> fail e)
      (λ version.
        patch_ready c
          (ready (bytes "True") (bytes "ProxmoxConnectionReady")
            (bytes "Proxmox connection is ready"))
          (some version) (some creds.observed_secrets)
        >> return dont_requeue)

-- `Reconcile`, once the object is read
unfoldable pub reconcile_connection : Connection → Action Result
reconcile_connection c =
    if text_eq (get_reconcile_mode c.metadata) disable
    then return dont_requeue
    else handle (resolve_credentials c)
        (λ e.
          patch_ready c (ready (bytes "False") (bytes "CredentialsUnavailable") (message e)) none
            none
          >> fail e)
        (check_connection c)

-- `Reconcile`
unfoldable pub reconcile_connection_object : Text → Action Result
reconcile_connection_object name = do
  history ← gets (λ w. w.trace)
  handle (perform (Call.kube_get connection_kind [] name)) (ignore_not_found dont_requeue)
      λ _. do c ← gets (λ w. w.env.stored_connection history name); reconcile_connection c

-- Whether a reference of a connection names the secret.
unfoldable pub refers_to : Text → Text → Option SecretKeyReference → Bool
refers_to namespace name none = false
refers_to namespace name (some ref) = text_eq ref.namespace namespace && text_eq ref.name name

-- The loop of `connectionsForSecret`: the names of the connections to reconcile.
unfoldable pub using_secret : Text → Text → List Connection → List Text
using_secret namespace name [] = []
using_secret namespace name (c ∷ conns) =
    let rest = using_secret namespace name conns in
    if refers_to namespace name c.password_from || refers_to namespace name c.secret_from
    then c.metadata.name ∷ rest
    else rest

-- `connectionsForSecret`; an error of the list is logged.
unfoldable pub connections_for_secret : Text → Text → Action (List Text)
connections_for_secret namespace name = do
  history ← gets (λ w. w.trace)
  handle (perform (Call.kube_list (bytes "ProxmoxConnections"))) (λ _. return [])
      (λ _. do
        conns ← gets (λ w. w.env.stored_connections history)
        return (using_secret namespace name conns))
