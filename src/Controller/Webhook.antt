-- ===== src/Controller/Webhook.antt =====
-- internal/webhook/proxmox/v1alpha1/name_webhook.go: the validator of `spec.name`. An admitted
-- object comes with warnings; a rejected one is an error.
use kubemox.Base.{
  List, Option, Text, [], bytes, if◌then◌else◌, length, ltb, none, not, some, ◌&&◌, ◌++◌, ◌∷◌,
}
use kubemox.Client.FromRef.{new_client_from_ref}
use kubemox.Client.Lookup.{container_ids_by_name, vmids_by_name}
use kubemox.Controller.Claims.{claim_string, list_claims, quoted}
use kubemox.GuestName.Defs.{Claim, conn, same_guest, same_object}
use kubemox.World.Error.{Error, message, other}
use kubemox.World.Monad.{Action, fail, handle, on_option, return, ◌>>=◌}

-- The loop of `validate` over the other claims.
unfoldable pub taken_by : Claim → List Claim → Option Claim
taken_by c [] = none
taken_by c (o ∷ others) =
    if not (same_object o c) && same_guest c o then some o else taken_by c others

abbrev pub unchecked : Error → Action (List Text)
unchecked e = return ((bytes "could not check spec.name on Proxmox: " ++ message e) ∷ [])

-- `validate` on Proxmox: a name that more than one guest has is rejected.
unfoldable pub check_on_proxmox : Claim → Action (List Text)
check_on_proxmox c = handle (new_client_from_ref c.conn_ref) unchecked λ pc.
    handle
      (if c.lxc then container_ids_by_name pc c.guest c.node else vmids_by_name pc c.guest c.node)
      unchecked
      (λ ids.
        if ltb 1 (length ids)
        then fail (
            other (
              bytes "spec.name "
              ++ quoted c.guest
              ++ bytes " matches several guests on Proxmox node "
              ++ quoted c.node))
        else return [])

-- `validate`
unfoldable pub validate : Claim → Action (List Text)
validate c = do
  others ← list_claims c.lxc
  on_option (taken_by c others) (check_on_proxmox c) (λ o. fail (
      other (
        bytes "spec.name "
        ++ quoted c.guest
        ++ bytes " is already used by "
        ++ claim_string o
        ++ bytes " on node "
        ++ quoted c.node
        ++ bytes " of ProxmoxConnection "
        ++ quoted (conn c))))

-- `ValidateCreate`, `ValidateUpdate` and `ValidateDelete`, from the claims of the objects
unfoldable pub validate_create : Claim → Action (List Text)
validate_create c = validate c

unfoldable pub validate_update : Claim → Claim → Action (List Text)
validate_update old c = if same_guest c old then return [] else validate c

unfoldable pub validate_delete : Claim → Action (List Text)
validate_delete _ = return []
