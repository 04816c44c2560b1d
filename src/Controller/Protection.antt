-- ===== src/Controller/Protection.antt =====
-- When a reconcile may delete the guest of a VirtualMachine.
use kubemox.Api.{Condition, ObjectMeta, VirtualMachine}
use kubemox.Base.{Bool, List, Option, Text, false, inl, inr, true, ℕ, ◌≡◌, ◌⊎◌}
use kubemox.Client.Create.{VmType, check_vm_type}
use kubemox.Client.FromRef.{new_client_from_ref, resolve_credential, resolve_credentials}
use kubemox.Client.Harmless.{
  create_vm_from_scratch-Keeps, create_vm_from_template-Keeps, ensure_vm_tag-Keeps,
  get_vm_state-Keeps, harmless_rules, is_delete, reboot_vm-Keeps, start_vm-Keeps, update_vm-Keeps,
}
use kubemox.Client.HarmlessConfig.{
  add_cloud_init_drive-Keeps, apply_additional_configuration-Keeps, configure_virtual_machine-Keeps,
}
use kubemox.Controller.Actions.{
  create_by_type, create_virtual_machine, give_up, handle_additional_config, handle_auto_start,
  handle_cloud_init_operations, handle_create_from_scratch, handle_create_from_template,
  start_created_vm, update_virtual_machine,
}
use kubemox.Controller.Claims.{claim_guest, grant, list_claims, mark_conflict, owner, release}
use kubemox.Controller.Deletion.{
  delete_and_release, delete_virtual_machine, handle_delete, handle_finalizer,
}
use kubemox.Controller.Reconcile.{
  emit_external_drift_event, ensure_guest_exists, finish_operations, handle_status,
  handle_virtual_machine_operations, operate_on_existing, operate_on_missing, reconcile_deletion,
  reconcile_in_mode, reconcile_kept, reconcile_normally, reconcile_owned, reconcile_vm,
}
use kubemox.GuestName.Defs.{Claim}
use kubemox.World.Env.{Connection, SecretKeyReference}
use kubemox.World.Error.{Error}
use kubemox.World.Keeps.{Keeps-if}
use kubemox.World.Monad.{World, modify}
use kubemox.World.Trace.{Avoids, Avoids-modify}

-- The calls of the API server and of the client cache.
list_claims-Keeps : (lxc : Bool) → Avoids is_delete (list_claims lxc)
unfolding list_claims
list_claims-Keeps lxc = search harmless_rules depth 12

pub claim_guest-Keeps :
    (kind : Text) (meta : ObjectMeta) (conditions : List Condition) (claim : Claim)
    (finalizer : Text)
    → Avoids is_delete (claim_guest kind meta conditions claim finalizer)
unfolding claim_guest owner grant release mark_conflict
claim_guest-Keeps kind meta conditions claim finalizer =
    search (harmless_rules, list_claims-Keeps) depth 14

resolve_credential-Keeps :
    (inline_field inline ref_field : Text) (ref : Option SecretKeyReference)
    → Avoids is_delete (resolve_credential inline_field inline ref_field ref)
unfolding resolve_credential
resolve_credential-Keeps inline_field inline ref_field ref = search harmless_rules depth 14

resolve_credentials-Keeps : (spec : Connection) → Avoids is_delete (resolve_credentials spec)
unfolding resolve_credentials
resolve_credentials-Keeps spec = search (harmless_rules, resolve_credential-Keeps) depth 9

store_client :
    (f : World → World) → ((w : World) → (f w).trace ≡ w.trace) → Avoids is_delete (modify f)
store_client f h = Avoids-modify is_delete f h

new_client_from_ref-Keeps : (ref : Option Text) → Avoids is_delete (new_client_from_ref ref)
unfolding new_client_from_ref
new_client_from_ref-Keeps ref =
    search (harmless_rules, resolve_credentials-Keeps, store_client) depth 16

give_up-Keeps :
    {A : Type 0} (vm : VirtualMachine) (e : Error) → Avoids {A = A} is_delete (give_up vm e)
unfolding give_up
give_up-Keeps vm e = search harmless_rules

ruleset controller_rules =
    (harmless_rules, give_up-Keeps, start_vm-Keeps, get_vm_state-Keeps, reboot_vm-Keeps)

handle_additional_config-Keeps :
    (pc : ℕ) (vm : VirtualMachine) → Avoids is_delete (handle_additional_config pc vm)
unfolding handle_additional_config
handle_additional_config-Keeps pc vm =
    search (controller_rules, apply_additional_configuration-Keeps)

handle_cloud_init-Keeps :
    (pc : ℕ) (vm : VirtualMachine) → Avoids is_delete (handle_cloud_init_operations pc vm)
unfolding handle_cloud_init_operations
handle_cloud_init-Keeps pc vm = search (controller_rules, add_cloud_init_drive-Keeps) depth 12

start_created_vm-Keeps : (pc : ℕ) (vm : VirtualMachine) → Avoids is_delete (start_created_vm pc vm)
unfolding start_created_vm
start_created_vm-Keeps pc vm = search controller_rules

from_template-Keeps :
    (pc : ℕ) (vm : VirtualMachine) → Avoids is_delete (handle_create_from_template pc vm)
unfolding handle_create_from_template
from_template-Keeps pc vm =
    search
      (
        controller_rules, create_vm_from_template-Keeps, handle_additional_config-Keeps,
        start_created_vm-Keeps,
      )
      depth 14

from_scratch-Keeps :
    (pc : ℕ) (vm : VirtualMachine) → Avoids is_delete (handle_create_from_scratch pc vm)
unfolding handle_create_from_scratch
from_scratch-Keeps pc vm =
    search
      (
        controller_rules, create_vm_from_scratch-Keeps, handle_cloud_init-Keeps,
        start_created_vm-Keeps,
      )
      depth 14

create_by_type-Keeps :
    (pc : ℕ) (vm : VirtualMachine) (t : VmType) → Avoids is_delete (create_by_type pc vm t)
unfolding create_by_type
create_by_type-Keeps pc vm VmType.template = from_template-Keeps pc vm
create_by_type-Keeps pc vm VmType.scratch = from_scratch-Keeps pc vm
create_by_type-Keeps pc vm VmType.faulty = search controller_rules
create_by_type-Keeps pc vm VmType.undefined = search controller_rules

create_virtual_machine-Keeps :
    (pc : ℕ) (vm : VirtualMachine) → Avoids is_delete (create_virtual_machine pc vm)
unfolding create_virtual_machine
create_virtual_machine-Keeps pc vm = create_by_type-Keeps pc vm (check_vm_type vm)

update_virtual_machine-Keeps :
    (pc : ℕ) (vm : VirtualMachine) → Avoids is_delete (update_virtual_machine pc vm)
unfolding update_virtual_machine
update_virtual_machine-Keeps pc vm =
    search (controller_rules, update_vm-Keeps, configure_virtual_machine-Keeps) depth 9

handle_auto_start-Keeps :
    (pc : ℕ) (vm : VirtualMachine) → Avoids is_delete (handle_auto_start pc vm)
unfolding handle_auto_start
handle_auto_start-Keeps pc vm = search controller_rules depth 12

operations-Keeps :
    (pc : ℕ) (vm : VirtualMachine) → Avoids is_delete (handle_virtual_machine_operations pc vm)
unfolding handle_virtual_machine_operations operate_on_existing operate_on_missing finish_operations
operations-Keeps pc vm =
    search
      (
        controller_rules, update_virtual_machine-Keeps, handle_cloud_init-Keeps,
        handle_additional_config-Keeps, handle_auto_start-Keeps, create_virtual_machine-Keeps,
        ensure_vm_tag-Keeps,
      )
      depth 16

-- The cases in which the guest must stay: the resource is protected, or is not being deleted.
abbrev pub MustStay : VirtualMachine → Type 0
MustStay vm = (vm.spec.deletion_protection ≡ true) ⊎ (vm.metadata.deleting ≡ false)

delete_virtual_machine-Keeps :
    (pc : ℕ) (vm : VirtualMachine)
    → vm.spec.deletion_protection ≡ true
    → Avoids is_delete (delete_virtual_machine pc vm)
unfolding delete_virtual_machine
delete_virtual_machine-Keeps pc vm h = rw h (search harmless_rules)

delete_and_release-Keeps :
    (pc : ℕ) (vm : VirtualMachine)
    → Avoids is_delete (delete_virtual_machine pc vm)
    → Avoids is_delete (delete_and_release pc vm)
unfolding delete_and_release
delete_and_release-Keeps pc vm k = search harmless_rules depth 12

deletion-Keeps :
    (pc : ℕ) (vm : VirtualMachine)
    → Avoids is_delete (delete_and_release pc vm)
    → Avoids is_delete (reconcile_deletion pc vm)
unfolding reconcile_deletion handle_delete
deletion-Keeps pc vm k = search harmless_rules depth 14

normally_kept : (pc : ℕ) (vm : VirtualMachine) → Avoids is_delete (reconcile_kept pc vm)
unfolding reconcile_kept handle_finalizer handle_status
normally_kept pc vm = search (harmless_rules, operations-Keeps) depth 16

normally-Keeps :
    (pc : ℕ) (vm : VirtualMachine) → MustStay vm → Avoids is_delete (reconcile_normally pc vm)
unfolding reconcile_normally
normally-Keeps pc vm (inl p) =
    Keeps-if vm.metadata.deleting (reconcile_deletion pc vm) (reconcile_kept pc vm)
      (deletion-Keeps pc vm (delete_and_release-Keeps pc vm (delete_virtual_machine-Keeps pc vm p)))
      (normally_kept pc vm)
normally-Keeps pc vm (inr a) = simp a (normally_kept pc vm)

-- A reconcile of a resource that is protected, or is not being deleted, deletes no guest, in any
-- mode and whatever the calls answer.
pub reconcile_vm-Avoids-delete :
    (vm : VirtualMachine) → MustStay vm → Avoids is_delete (reconcile_vm vm)
unfolding reconcile_vm reconcile_owned reconcile_in_mode ensure_guest_exists
    emit_external_drift_event
reconcile_vm-Avoids-delete vm h =
    search
      (
        harmless_rules, claim_guest-Keeps, new_client_from_ref-Keeps, create_virtual_machine-Keeps,
        stays,
      )
      depth 16
  where
    stays :
        (pc : ℕ) (conditions : List Condition)
        → Avoids is_delete (reconcile_normally pc (record vm { conditions = conditions }))
    stays pc conditions = normally-Keeps pc (record vm { conditions = conditions }) h
