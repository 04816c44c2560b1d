-- ===== src/Controller/Reconcile.antt =====
-- `Reconcile` of internal/controller/proxmox/virtualmachine_controller.go, and the operations that
-- it runs on a guest that is not being deleted.
use kubemox.Api.{Condition, VirtualMachine}
use kubemox.Base.{
  Text, bytes, if◌then◌else◌, length, ltb, not, take_bytes, text_eq, ℕ, ◌&&◌, ◌++◌, ◌==◌, ◌∷◌,
}
use kubemox.Client.FromRef.{new_client_from_ref}
use kubemox.Client.Lookup.{check_vm}
use kubemox.Client.Power.{ensure_vm_tag}
use kubemox.Controller.Actions.{
  create_virtual_machine, handle_additional_config, handle_auto_start, handle_cloud_init_operations,
  record_event, update_virtual_machine,
}
use kubemox.Controller.Claims.{claim_guest}
use kubemox.Controller.Deletion.{
  handle_delete, handle_finalizer, has_condition, virtual_machine_finalizer_name,
}
use kubemox.Controller.Mode.{
  Result, disable, dont_requeue, ensure_exists, get_reconcile_mode, ignore_not_found,
  patch_conditions, vm_kind, watch_only,
}
use kubemox.GuestName.Defs.{for_vm}
use kubemox.World.Call.{Call}
use kubemox.World.Error.{Error, is_task_error, terminal}
use kubemox.World.Monad.{Action, fail, gets, handle, on_option, perform, return, ◌>>=◌, ◌>>◌}

-- The error of `CheckVM` in `handleVirtualMachineOperations`.
abbrev check_failed : Error → Action Result
check_failed e = if is_task_error e then fail (terminal e) else ignore_not_found dont_requeue e

-- The lines behind an existing or a new guest: the tag.
unfoldable pub finish_operations : ℕ → VirtualMachine → Action Result
finish_operations pc vm = ensure_vm_tag pc vm.spec.name vm.spec.node_name >> return dont_requeue

-- The branch of a guest that exists. The result of `handleAutoStart` is read only beside an error.
unfoldable pub operate_on_existing : ℕ → VirtualMachine → Action Result
operate_on_existing pc vm =
    handle (update_virtual_machine pc vm) (ignore_not_found dont_requeue) λ _.
      handle (handle_cloud_init_operations pc vm) (ignore_not_found dont_requeue) λ _.
        handle (handle_additional_config pc vm) (ignore_not_found dont_requeue)
          λ _. handle (handle_auto_start pc vm) fail (λ _. finish_operations pc vm)

-- The branch of a guest that is not there. The result of `CreateVirtualMachine` is read only beside
-- an error.
unfoldable pub operate_on_missing : ℕ → VirtualMachine → Action Result
operate_on_missing pc vm =
    handle (create_virtual_machine pc vm) (ignore_not_found dont_requeue)
      (λ _. finish_operations pc vm)

-- `handleVirtualMachineOperations`
unfoldable pub handle_virtual_machine_operations : ℕ → VirtualMachine → Action Result
handle_virtual_machine_operations pc vm =
    handle (check_vm pc vm.spec.name vm.spec.node_name) check_failed
      λ vm_exists. if vm_exists then operate_on_existing pc vm else operate_on_missing pc vm

abbrev ready_condition : Condition
ready_condition = record {
  type = bytes "Available";
  status = bytes "True";
  reason = bytes "Ready";
  message = bytes "VirtualMachine is ready";
  observed_generation = 0;
}

-- `handleStatus`
unfoldable pub handle_status : VirtualMachine → Action (Unit {0})
handle_status vm = do
  env ← gets (λ w. w.env)
  let metadata = vm.metadata
  if has_condition env vm.conditions (bytes "Available") (bytes "True")
        && (vm.observed_generation == metadata.generation)
      then return tt
      else (do
        let (conditions, _) = env.set_condition vm.conditions ready_condition
        handle (patch_conditions vm_kind metadata conditions) (ignore_not_found tt) return)

-- `emitExternalDriftEventIfAny`, with the cap on the difference
unfoldable pub emit_external_drift_event : VirtualMachine → Action (Unit {0})
emit_external_drift_event vm = do
  drift ← gets (λ w. w.env.last_drift w.trace vm.metadata.namespace vm.metadata.name)
  on_option drift (return tt) λ diff. record_event (bytes "DriftDetected") (
      if ltb 512 (length diff)
      then take_bytes 512 diff ++ (226 ∷ 128 ∷ 166 ∷ bytes "(truncated)")
      else diff)

-- The mode EnsureExists: a missing guest is created, and an existing one is left alone.
unfoldable pub ensure_guest_exists : ℕ → VirtualMachine → Action Result
ensure_guest_exists pc vm =
    handle (check_vm pc vm.spec.name vm.spec.node_name) (ignore_not_found dont_requeue) λ vm_exists.
      if vm_exists
      then return dont_requeue
      else (create_virtual_machine pc vm >> return dont_requeue)

-- The deletion branch of `Reconcile`.
unfoldable pub reconcile_deletion : ℕ → VirtualMachine → Action Result
reconcile_deletion pc vm = do
  env ← gets (λ w. w.env)
  if env.contains_finalizer vm.metadata.finalizers virtual_machine_finalizer_name
      then handle (handle_delete pc vm) (ignore_not_found dont_requeue) (λ _. return dont_requeue)
      else return dont_requeue

-- The branch of an object that is not being deleted.
unfoldable pub reconcile_kept : ℕ → VirtualMachine → Action Result
reconcile_kept pc vm = handle (handle_finalizer vm) (ignore_not_found dont_requeue) λ kept. do
  result ← handle_virtual_machine_operations pc kept
  if not (result.requeue_after == 0)
      then return result
      else handle (handle_status kept) (ignore_not_found dont_requeue) (λ _. return dont_requeue)

-- The normal mode of `Reconcile`.
unfoldable pub reconcile_normally : ℕ → VirtualMachine → Action Result
reconcile_normally pc vm =
    if vm.metadata.deleting then reconcile_deletion pc vm else reconcile_kept pc vm

-- The switch of `Reconcile` on the mode.
unfoldable pub reconcile_in_mode : ℕ → VirtualMachine → Action Result
reconcile_in_mode pc vm =
    let mode = get_reconcile_mode vm.metadata in
    if text_eq mode watch_only
    then return dont_requeue
    else if text_eq mode ensure_exists
    then ensure_guest_exists pc vm
    else if text_eq mode disable
    then return dont_requeue
    else reconcile_normally pc vm

-- The lines of `Reconcile` behind the claim.
unfoldable pub reconcile_owned : VirtualMachine → Action Result
reconcile_owned vm = do
  emit_external_drift_event vm
  pc ← new_client_from_ref vm.spec.connection_ref
  reconcile_in_mode pc vm

-- `Reconcile`, once the object is read
unfoldable pub reconcile_vm : VirtualMachine → Action Result
reconcile_vm vm = do
  claimed ← claim_guest vm_kind vm.metadata vm.conditions (for_vm vm) virtual_machine_finalizer_name
  if not claimed.owned
      then return claimed.result
      else reconcile_owned (record vm { conditions = claimed.conditions })

-- `Reconcile`, with `handleResourceNotFound`
unfoldable pub reconcile : Text → Text → Action Result
reconcile namespace name = do
  history ← gets (λ w. w.trace)
  handle (perform (Call.kube_get vm_kind namespace name)) (ignore_not_found dont_requeue)
      λ _. do vm ← gets (λ w. w.env.stored_vm history namespace name); reconcile_vm vm
