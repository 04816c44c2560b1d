-- ===== src/Tests/Reconciles.antt =====
-- The theorems on the reconciler and the webhook, at concrete clusters.
use kubemox.Api.{VirtualMachine}
use kubemox.Base.{
  All, Bool, In, List, Option, Text, [], bytes, equal_fold, false, if◌then◌else◌, inl, inr, none,
  refl, some, text_eq, text_lt, true, ℕ, ◌∷◌, ◌≡◌, ◌⊎◌,
}
use kubemox.Client.Cache.{cached_vmid, get_cached_vm, get_node, set_cached_vm, set_cached_vmid}
use kubemox.Client.Create.{check_vm_type, create_vm_from_template}
use kubemox.Client.FromRef.{
  cached_client_fresh, new_client_from_ref, resolve_credential, resolve_credentials, usable_client,
}
use kubemox.Client.Harmless.{is_delete}
use kubemox.Client.Lookup.{
  check_vm, find_vm, get_virtual_machine, get_vmid, virtual_machine, virtual_machines,
  vmids_by_name,
}
use kubemox.Client.Power.{delete_vm, ensure_vm_tag, ping}
use kubemox.Controller.Actions.{create_by_type, create_virtual_machine, handle_create_from_template}
use kubemox.Controller.Admission.{Rival, SeveralGuests, admitted-NoRival, rejected-HasCause}
use kubemox.Controller.Claims.{Claimed, claim_guest, grant, list_claims, owner, refused}
use kubemox.Controller.Deletion.{delete_and_release, virtual_machine_finalizer_name}
use kubemox.Controller.Isolation.{
  idle_modes-Avoid-proxmox, loser-Avoids-proxmox, owned-eq-same_object,
}
use kubemox.Controller.Mode.{Result, dont_requeue, get_reconcile_mode, requeue_in, vm_kind}
use kubemox.Controller.Outcomes.{
  deletion_started, failed_delete_keeps_finalizer, is_kube_update, lookup_failure_releases,
  operations_never_requeue, release_call,
}
use kubemox.Controller.Protection.{reconcile_vm-Avoids-delete}
use kubemox.Controller.Reconcile.{
  finish_operations, handle_virtual_machine_operations, operate_on_missing, reconcile_vm,
}
use kubemox.Controller.Webhook.{check_on_proxmox, taken_by, validate}
use kubemox.GuestName.Defs.{
  Claim, before, conn, for_vm, list, owner_from, owner_of, same_guest, same_object,
}
use kubemox.Scenario.{
  calm, elder, elder_claim, error_of, idle, no_nodes, start, value_of, younger, younger_claim,
}
use kubemox.World.Call.{Call, Event, reaches_proxmox}
use kubemox.World.Error.{Error, is_not_found, is_task_error, other}
use kubemox.World.Monad.{
  Outcome, World, after, crash, err, fail, gets, handle, modify, note, ok, on_option, perform,
  return, return_error, wait_for, ◌>>=◌,
}
use kubemox.World.Trace.{Avoided, Avoids, avoids}

loser-Avoids-proxmox_example : Avoided reaches_proxmox (after (reconcile_vm younger calm))
unfolding owner list_claims list perform handle gets return owner_of owner_from same_guest
    same_object before for_vm conn text_eq equal_fold ◌>>=◌
loser-Avoids-proxmox_example =
    loser-Avoids-proxmox younger calm (after (owner younger_claim calm)) elder_claim refl refl refl

idle_modes-Avoid-proxmox_example : Avoids reaches_proxmox (reconcile_vm idle)
unfolding get_reconcile_mode
idle_modes-Avoid-proxmox_example = idle_modes-Avoid-proxmox idle (inl refl)

reconcile_vm-Avoids-delete_example : Avoids is_delete (reconcile_vm elder)
reconcile_vm-Avoids-delete_example = reconcile_vm-Avoids-delete elder (inr refl)

abbrev claimed : Outcome Claimed
claimed = claim_guest vm_kind elder.metadata [] elder_claim virtual_machine_finalizer_name calm

owned-eq-same_object_example :
    (value_of (refused dont_requeue []) claimed).owned ≡ same_object elder_claim elder_claim
unfolding claim_guest grant on_option owner list_claims list perform handle gets return owner_of
    owner_from same_guest same_object before for_vm conn text_eq equal_fold ◌>>=◌ text_lt
owned-eq-same_object_example =
    owned-eq-same_object vm_kind elder.metadata [] elder_claim virtual_machine_finalizer_name calm
      (after claimed) (after (owner elder_claim calm)) (value_of (refused dont_requeue []) claimed)
      elder_claim refl refl

abbrev no_ping : List Event → Call → Option Error
no_ping _ (Call.ping _) = some (other (bytes "timeout"))
no_ping _ _ = none

abbrev pinging : World
pinging = start no_ping

abbrev not_pinged : Outcome (Unit {0})
not_pinged = delete_vm 0 (bytes "web") (bytes "pve") (deletion_started elder pinging)

failed_delete_keeps_finalizer_example :
    Avoided is_kube_update (after (delete_and_release 0 elder pinging))
unfolding delete_vm get_virtual_machine get_vmid get_node virtual_machines virtual_machine find_vm
    equal_fold set_cached_vmid set_cached_vm get_cached_vm cached_vmid ping handle perform gets
    modify return fail on_option is_not_found ◌>>=◌ text_eq
failed_delete_keeps_finalizer_example =
    failed_delete_keeps_finalizer 0 elder pinging (after not_pinged) (error_of not_pinged) refl refl
      refl refl

abbrev unreachable : World
unreachable = start no_nodes

abbrev not_found_there : Outcome ℕ
not_found_there =
    get_virtual_machine 0 (bytes "web") (bytes "pve") (deletion_started elder unreachable)

lookup_failure_releases_example :
    (after (delete_and_release 0 elder unreachable)).trace
    ≡ record { call = release_call elder (after not_found_there); succeeded = true }
      ∷ (after not_found_there).trace
unfolding get_virtual_machine get_node handle perform gets modify return fail on_option ◌>>=◌
lookup_failure_releases_example =
    lookup_failure_releases 0 elder unreachable (after not_found_there) (error_of not_found_there)
      refl refl

-- A virtual machine to be cloned, and a cluster on which the first guest that is asked for is not found.
abbrev cloned : VirtualMachine
cloned = record elder {
  spec = record (elder.spec) {
    name = bytes "db";
    template = some (record {
      name = bytes "tpl";
      cores = 1;
      socket = 1;
      memory = 0;
      disk = [];
      network = none;
      pci_devices = [];
    });
  };
}

abbrev is_get_vm : Call → Bool
is_get_vm (Call.get_vm _ _) = true
is_get_vm _ = false

abbrev no_first : List Event → Call → Option Error
no_first history (Call.get_vm _ _) =
    if avoids is_get_vm history then some (other (bytes "500")) else none
no_first _ _ = none

abbrev operated : Outcome Result
operated = handle_virtual_machine_operations 0 cloned (start no_first)

operations_never_requeue_example : value_of (requeue_in 1) operated ≡ dont_requeue
unfolding handle_virtual_machine_operations check_vm get_node get_virtual_machine get_vmid
    virtual_machine cached_vmid get_cached_vm set_cached_vm virtual_machines find_vm equal_fold
    text_eq operate_on_missing create_virtual_machine create_by_type check_vm_type
    handle_create_from_template create_vm_from_template is_not_found is_task_error finish_operations
    ensure_vm_tag wait_for return_error handle gets perform note modify return fail crash on_option
    ◌>>=◌
operations_never_requeue_example =
    operations_never_requeue 0 cloned (start no_first) (after operated)
      (value_of (requeue_in 1) operated) refl

abbrev fresh : Claim
fresh = record elder_claim { name = bytes "fresh"; guest = bytes "db" }

admitted-NoRival_example :
    (others : List Claim) × (w1 : World) × (list_claims false calm ≡ ok others w1)
    × All (λ o. ¬ Rival fresh o) others
unfolding validate list_claims list for_vm taken_by same_object same_guest conn check_on_proxmox
    new_client_from_ref resolve_credentials resolve_credential usable_client cached_client_fresh
    vmids_by_name get_node virtual_machines text_eq equal_fold handle gets perform modify return
    fail on_option ◌>>=◌
admitted-NoRival_example = admitted-NoRival fresh calm (after (validate fresh calm)) [] refl

abbrev rejected : Outcome (List Text)
rejected = validate younger_claim calm

rejected-HasCause_example :
    (list_claims false calm ≡ err (error_of rejected) (after rejected))
    ⊎ ((others : List Claim) × (w1 : World) × (list_claims false calm ≡ ok others w1)
        × (((o : Claim) × In o others × Rival younger_claim o) ⊎ SeveralGuests younger_claim w1))
unfolding validate list_claims for_vm ◌>>=◌ gets handle perform return list on_option taken_by
    same_object text_eq same_guest conn equal_fold fail
rejected-HasCause_example =
    rejected-HasCause younger_claim calm (after rejected) (error_of rejected) refl
