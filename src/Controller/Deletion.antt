-- ===== src/Controller/Deletion.antt =====
-- Finalizers and deletion of a VirtualMachine: `handleFinalizer`, `DeleteVirtualMachine` and
-- `handleDelete` of internal/controller/proxmox/virtualmachine_controller.go.
use kubemox.Api.{Condition, ObjectMeta, VirtualMachine}
use kubemox.Base.{Bool, List, Text, bytes, false, if◌then◌else◌, none, not, some, text_eq, ℕ, ◌==◌}
use kubemox.Client.Power.{delete_vm}
use kubemox.Controller.Actions.{give_up, record_event, unregister}
use kubemox.Controller.Mode.{
  Result, dont_requeue, ignore_not_found, patch_conditions, update_object, vm_kind,
}
use kubemox.World.Env.{Env}
use kubemox.World.Error.{is_not_found, is_task_error}
use kubemox.World.Monad.{Action, fail, gets, handle, return, ◌>>=◌, ◌>>◌}

abbrev pub virtual_machine_finalizer_name : Text
virtual_machine_finalizer_name = bytes "virtualmachine.proxmox.alperen.cloud/finalizer"

-- `handleFinalizer`: the object, with its finalizer.
unfoldable pub handle_finalizer : VirtualMachine → Action VirtualMachine
handle_finalizer vm = do
  env ← gets (λ w. w.env)
  let metadata = vm.metadata
  if env.contains_finalizer metadata.finalizers virtual_machine_finalizer_name
      then return vm
      else (do
        let finalizers = env.add_finalizer metadata.finalizers virtual_machine_finalizer_name
        update_object vm_kind metadata finalizers
        return (record vm { metadata = record metadata { finalizers = finalizers } }))

-- `DeleteVirtualMachine`
unfoldable pub delete_virtual_machine : ℕ → VirtualMachine → Action Result
delete_virtual_machine pc vm =
    record_event (bytes "Deleting") vm.spec.name
    >> (if vm.spec.deletion_protection
        then return dont_requeue
        else handle (delete_vm pc vm.spec.name vm.spec.node_name)
            (λ e.
              if is_not_found e
              then return dont_requeue
              else if is_task_error e
              then give_up vm e
              else fail e)
            (λ _. return dont_requeue))

abbrev deleting_condition : ObjectMeta → Condition
deleting_condition meta = record {
  type = bytes "Deleting";
  status = bytes "Unknown";
  reason = bytes "Deleting";
  message = bytes "Deleting VirtualMachine";
  observed_generation = 0;
}

-- `meta.IsStatusConditionPresentAndEqual`
unfoldable pub has_condition : Env → List Condition → Text → Text → Bool
has_condition env conditions type status = elim (env.find_condition conditions type) [
  | none ↦ false
  | some c ↦ text_eq c.status status
]

-- The lines of `handleDelete` behind the condition.
unfoldable pub delete_and_release : ℕ → VirtualMachine → Action Result
delete_and_release pc vm =
    unregister vm
    >> handle (delete_virtual_machine pc vm) (ignore_not_found dont_requeue) λ res.
      if not (res.requeue_after == 0) then return res else (do
        env ← gets (λ w. w.env)
        let metadata = vm.metadata
        let (finalizers, _) =
            env.remove_finalizer metadata.finalizers virtual_machine_finalizer_name
        handle (update_object vm_kind metadata finalizers) (ignore_not_found dont_requeue)
            (λ _. return dont_requeue))

-- `handleDelete`
unfoldable pub handle_delete : ℕ → VirtualMachine → Action Result
handle_delete pc vm = do
  env ← gets (λ w. w.env)
  if has_condition env vm.conditions (bytes "Deleting") (bytes "Unknown")
      then delete_and_release pc vm
      else (do
        let (conditions, _) = env.set_condition vm.conditions (deleting_condition vm.metadata)
        handle (patch_conditions vm_kind vm.metadata conditions) (ignore_not_found dont_requeue)
            (λ _. delete_and_release pc vm))
