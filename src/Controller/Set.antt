-- ===== src/Controller/Set.antt =====
-- internal/controller/proxmox/virtualmachineset_controller.go: a set of virtual machines. The number of
-- replicas is not negative, as the schema of the resource demands.
use kubemox.Api.{Condition, PciDevice, VirtualMachine, VirtualMachineSet, VirtualMachineSpec}
use kubemox.Base.{
  List, Text, [], bytes, get_elem?, if◌then◌else◌, itoa, length, ltb, none, not, some, suc, text_eq,
  zero, ℕ, ◌++◌, ◌==◌, ◌||◌, ◌∷◌,
}
use kubemox.Client.Disk.{string_in_slice}
use kubemox.Controller.Deletion.{has_condition}
use kubemox.Controller.Mode.{
  Result, disable, dont_requeue, get_reconcile_mode, ignore_not_found, patch_conditions, requeue_in,
  update_object, vm_kind,
}
use kubemox.World.Call.{Call}
use kubemox.World.Error.{is_kube_already_exists, is_kube_not_found, is_not_found, message, wrap}
use kubemox.World.Monad.{Action, fail, gets, handle, perform, return, ◌>>=◌, ◌>>◌}

abbrev pub set_kind : Text
set_kind = bytes "VirtualMachineSet"

abbrev pub virtual_machine_set_finalizer_name : Text
virtual_machine_set_finalizer_name = bytes "virtualmachineset.proxmox.alperen.cloud/finalizer"

-- The name that `createOrUpdateVirtualMachineCRs` gives to a replica.
unfoldable pub replica_name : VirtualMachineSet → ℕ → Text
replica_name set i = set.metadata.name ++ (bytes "-" ++ itoa i)

-- The PCI devices of the replica with an index.
unfoldable pub pci_devices_of : VirtualMachineSet → ℕ → List PciDevice
pci_devices_of set i = elim set.spec.pci_devices [
  | none ↦ set.spec.template.pci_devices
  | some pci ↦
      if text_eq pci.mode (bytes "shared")
      then pci.devices
      else if text_eq pci.mode (bytes "dedicated")
      then elim (get_elem? pci.devices i) [ none ↦ [] | some device ↦ device ∷ [] ]
      else set.spec.template.pci_devices
]

-- The specification that `createOrUpdateVirtualMachineCRs` sets.
unfoldable pub replica_spec : VirtualMachineSet → ℕ → VirtualMachineSpec
replica_spec set i = record {
  name = replica_name set i;
  node_name = set.spec.node_name;
  template = some (record (set.spec.template) { pci_devices = pci_devices_of set i });
  vm_spec = none;
  deletion_protection = set.spec.deletion_protection;
  enable_auto_start = set.spec.enable_auto_start;
  additional_config = set.spec.additional_config;
  clone_mode = set.spec.clone_mode;
  connection_ref = set.spec.connection_ref;
}

abbrev pub replica_call : VirtualMachineSet → ℕ → Call
replica_call set i =
    Call.create_or_update set.metadata.namespace (replica_name set i) set.metadata.name
      (replica_spec set i)

-- A round of the loop of `createOrUpdateVirtualMachineCRs`, before the rest.
unfoldable pub create_replica : Call → Action (Unit {0}) → Action (Unit {0})
create_replica c rest =
    handle (perform c) (λ e. if is_kube_already_exists e then rest else fail e) (λ _. rest)

-- The loop, from index `i` on, for `n` replicas.
unfoldable pub create_replicas : VirtualMachineSet → ℕ → ℕ → Action (Unit {0})
create_replicas set i zero = return tt
create_replicas set i (suc n) =
    let rest = create_replicas set (suc i) n in create_replica (replica_call set i) rest

-- `createOrUpdateVirtualMachineCRs`
unfoldable pub create_or_update_virtual_machine_crs : VirtualMachineSet → Action (Unit {0})
create_or_update_virtual_machine_crs set = create_replicas set 0 set.spec.replicas

-- The name of a replica as `scaleDownVMs` forms it, by the format "%s-%d".
unfoldable pub expected_name : VirtualMachineSet → ℕ → Text
expected_name set i = set.metadata.name ++ (bytes "-" ++ itoa i)

-- `expectedVMMap`, as the list of its keys from index `i` on
unfoldable pub expected_names : VirtualMachineSet → ℕ → ℕ → List Text
expected_names set i zero = []
expected_names set i (suc n) = expected_name set i ∷ expected_names set (suc i) n

abbrev pub delete_call : VirtualMachine → Call
delete_call vm = Call.kube_delete vm_kind vm.metadata.namespace vm.metadata.name

-- A round of the last loop of `scaleDownVMs`, before the rest.
unfoldable pub delete_unexpected :
    List Text → VirtualMachine → Action (Unit {0}) → Action (Unit {0})
delete_unexpected expected vm rest =
    if string_in_slice vm.metadata.name expected
    then rest
    else handle (perform (delete_call vm))
        (λ e. fail (wrap (bytes "unable to delete VirtualMachine: " ++ message e) e)) (λ _. rest)

unfoldable pub delete_all_unexpected : List Text → List VirtualMachine → Action (Unit {0})
delete_all_unexpected expected [] = return tt
delete_all_unexpected expected (vm ∷ vms) =
    let rest = delete_all_unexpected expected vms in delete_unexpected expected vm rest

-- `scaleDownVMs`
unfoldable pub scale_down_vms : VirtualMachineSet → List VirtualMachine → Action (Unit {0})
scale_down_vms set vms = delete_all_unexpected (expected_names set 0 set.spec.replicas) vms

abbrev scaled_down : Condition
scaled_down = record {
  type = bytes "ScalingDown";
  status = bytes "True";
  reason = bytes "ScaledDown";
  message = bytes "VirtualMachines scaled down";
  observed_generation = 0;
}

-- `handleVMsetOperations`
unfoldable pub handle_vmset_operations : VirtualMachineSet → List VirtualMachine → Action (Unit {0})
handle_vmset_operations set vms =
    if ltb set.spec.replicas (length vms)
    then handle (scale_down_vms set vms) (λ e. if is_not_found e then return tt else fail e)
        (λ _. do
          env ← gets (λ w. w.env)
          let (conditions, _) = env.set_condition set.conditions scaled_down
          patch_conditions set_kind set.metadata conditions)
    else create_or_update_virtual_machine_crs set

-- `handleFinalizer`
unfoldable pub handle_set_finalizer : VirtualMachineSet → Action (Unit {0})
handle_set_finalizer set = do
  env ← gets (λ w. w.env)
  let metadata = set.metadata
  if env.contains_finalizer metadata.finalizers virtual_machine_set_finalizer_name
      then return tt
      else update_object set_kind metadata
          (env.add_finalizer metadata.finalizers virtual_machine_set_finalizer_name)

abbrev deleting_set : Condition
deleting_set = record {
  type = bytes "Deleting";
  status = bytes "Unknown";
  reason = bytes "Deleting";
  message = bytes "Deleting VirtualMachineSet";
  observed_generation = 0;
}

-- A round of the loop of `handleDelete` over the virtual machines, before the rest.
unfoldable pub delete_owned : VirtualMachine → Action Result → Action Result
delete_owned vm rest =
    handle (perform (delete_call vm)) (ignore_not_found (requeue_in 1)) (λ _. rest)

unfoldable pub delete_all_owned : List VirtualMachine → Action Result
delete_all_owned [] = return (requeue_in 1)
delete_all_owned (vm ∷ vms) = let rest = delete_all_owned vms in delete_owned vm rest

-- The lines of `handleDelete` behind the condition.
unfoldable pub release_set : VirtualMachineSet → List VirtualMachine → Action Result
release_set set vms =
    if length vms == 0
    then (do
      env ← gets (λ w. w.env)
      let metadata = set.metadata
      let (finalizers, _) =
          env.remove_finalizer metadata.finalizers virtual_machine_set_finalizer_name
      update_object set_kind metadata finalizers
      return dont_requeue)
    else delete_all_owned vms

-- `handleDelete`
unfoldable pub handle_set_delete : VirtualMachineSet → List VirtualMachine → Action Result
handle_set_delete set vms = do
  env ← gets (λ w. w.env)
  if has_condition env set.conditions (bytes "Deleting") (bytes "Unknown")
      then release_set set vms
      else (do
        let (conditions, _) = env.set_condition set.conditions deleting_set
        handle (patch_conditions set_kind set.metadata conditions) (ignore_not_found dont_requeue)
            (λ _. release_set set vms))

-- The branch of `Reconcile` for a set that is being deleted.
unfoldable pub reconcile_set_deletion : VirtualMachineSet → List VirtualMachine → Action Result
reconcile_set_deletion set vms = do
  env ← gets (λ w. w.env)
  if env.contains_finalizer set.metadata.finalizers virtual_machine_set_finalizer_name
      then (do
        res ← handle_set_delete set vms
        if not (res.requeue_after == 0) then return res else return (requeue_in 10))
      else return (requeue_in 10)

-- The lines of `Reconcile` behind the list of the set's virtual machines.
unfoldable pub reconcile_listed_set : VirtualMachineSet → List VirtualMachine → Action Result
reconcile_listed_set set vms =
    if set.metadata.deleting
    then reconcile_set_deletion set vms
    else handle (handle_set_finalizer set) (ignore_not_found dont_requeue) λ _.
      handle (handle_vmset_operations set vms)
        (λ e. if is_not_found e || is_kube_not_found e then return dont_requeue else fail e)
        (λ _. return dont_requeue)

-- `Reconcile`, with `handleResourceNotFound`
unfoldable pub reconcile_set : Text → Text → Action Result
reconcile_set namespace name = do
  history ← gets (λ w. w.trace)
  handle (perform (Call.kube_get set_kind namespace name)) (ignore_not_found dont_requeue) λ _. do
    set ← gets (λ w. w.env.stored_set history namespace name)
    if text_eq (get_reconcile_mode set.metadata) disable then return dont_requeue else (do
      before_list ← gets (λ w. w.trace)
      handle (perform (Call.kube_list (bytes "VirtualMachines"))) (ignore_not_found dont_requeue)
          λ _. do
            vms ← gets (λ w. w.env.owned_vms before_list set.metadata.namespace set.metadata.name)
            reconcile_listed_set set vms)
