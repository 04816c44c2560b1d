-- ===== src/Controller/Actions.antt =====
-- Creating, starting and updating the guest of a VirtualMachine:
-- internal/controller/proxmox/virtualmachine_controller.go. `Recorder` and `Watcher` are set, as
-- cmd/main.go sets them; log lines are left out.
use kubemox.Api.{VirtualMachine}
use kubemox.Base.{Bool, Text, bytes, contains, if◌then◌else◌, not, text_eq, ℕ, ◌++◌}
use kubemox.Client.Create.{
  VmType, check_vm_type, create_vm_from_scratch, create_vm_from_template, is_template,
}
use kubemox.Client.Options.{add_cloud_init_drive, apply_additional_configuration}
use kubemox.Client.PciConfig.{configure_virtual_machine}
use kubemox.Client.Power.{get_vm_state, reboot_vm, running_state, start_vm, stopped_state}
use kubemox.Client.Update.{update_vm}
use kubemox.Controller.Mode.{
  Result, dont_requeue, ignore_not_found, patch_conditions, requeue_in, vm_kind,
}
use kubemox.World.Call.{Call}
use kubemox.World.Error.{Error, is_not_found, is_task_error, message, other, terminal}
use kubemox.World.Monad.{Action, crash, fail, handle, note, on_option, return, ◌>>=◌, ◌>>◌}

-- `utils.IsTimeoutError`
unfoldable pub is_timeout_error : Error → Bool
is_timeout_error e = contains (message e) (bytes "timeout")

-- `r.Watcher.Unregister(client.ObjectKeyFromObject(vm))`
abbrev pub unregister : VirtualMachine → Action (Unit {0})
unregister vm = note (Call.unregister vm.metadata.namespace vm.metadata.name)

-- `r.Recorder.Eventf` with an action of the given name; of its text the error or the name is kept.
abbrev pub record_event : Text → Text → Action (Unit {0})
record_event action detail = note (Call.record_event action detail)

-- The ending of an unrecoverable error: a warning, the end of the watch, a terminal error.
unfoldable pub give_up : {A : Type 0} → VirtualMachine → Error → Action A
give_up vm e = record_event (bytes "Error") (message e) >> unregister vm >> fail (terminal e)

-- `handleAdditionalConfig`
unfoldable pub handle_additional_config : ℕ → VirtualMachine → Action (Unit {0})
handle_additional_config pc vm =
    on_option vm.spec.additional_config (return tt)
      (apply_additional_configuration pc vm.spec.name vm.spec.node_name)

-- `handleCloudInitOperations`; a failed reboot is only logged.
unfoldable pub handle_cloud_init_operations : ℕ → VirtualMachine → Action (Unit {0})
handle_cloud_init_operations pc vm =
    if is_template (check_vm_type vm)
    then return tt
    else on_option vm.spec.vm_spec crash λ spec. if not spec.cloud_init then return tt else (do
      add_cloud_init_drive pc vm.spec.name vm.spec.node_name
      state ← get_vm_state pc vm.spec.name vm.spec.node_name
      if text_eq state running_state
          then handle (reboot_vm pc vm.spec.name vm.spec.node_name) (λ _. return tt)
              (λ _. return tt)
          else return tt)

-- `startCreatedVM`
unfoldable pub start_created_vm : ℕ → VirtualMachine → Action Result
start_created_vm pc vm =
    handle (start_vm pc vm.spec.name vm.spec.node_name)
      (λ e. if is_task_error e then give_up vm e else fail e) (λ _. return dont_requeue)

-- The status patch of a failed creation, and the error itself.
abbrev patch_and_fail : VirtualMachine → Error → Action Result
patch_and_fail vm e = patch_conditions vm_kind vm.metadata vm.conditions >> fail e

-- `handleCreateFromTemplate`
unfoldable pub handle_create_from_template : ℕ → VirtualMachine → Action Result
handle_create_from_template pc vm =
    record_event (bytes "Creating") vm.spec.name
    >> handle (create_vm_from_template pc vm)
        (λ e.
          if is_not_found e
          then (record_event (bytes "Error") (message e) >> return (requeue_in 10))
          else if is_task_error e
          then (if is_timeout_error e
              then (record_event (bytes "Error") (message e) >> fail e)
              else give_up vm e)
          else patch_and_fail vm e)
        (λ _.
          record_event (bytes "Created") vm.spec.name
          >> handle (handle_additional_config pc vm) (ignore_not_found dont_requeue)
              (λ _. start_created_vm pc vm))

-- `handleCreateFromScratch`
unfoldable pub handle_create_from_scratch : ℕ → VirtualMachine → Action Result
handle_create_from_scratch pc vm =
    record_event (bytes "Creating") vm.spec.name
    >> handle (create_vm_from_scratch pc vm)
        (λ e. if is_task_error e then give_up vm e else patch_and_fail vm e)
        (λ _.
          record_event (bytes "Created") vm.spec.name
          >> handle_cloud_init_operations pc vm
          >> start_created_vm pc vm)

-- The switch of `CreateVirtualMachine` on the type.
unfoldable pub create_by_type : ℕ → VirtualMachine → VmType → Action Result
create_by_type pc vm VmType.template = handle_create_from_template pc vm
create_by_type pc vm VmType.scratch = handle_create_from_scratch pc vm
create_by_type pc vm _ =
    fail
      (other (bytes "VM " ++ vm.spec.name ++ bytes " doesn't have any template or vmSpec defined"))

-- `CreateVirtualMachine`
unfoldable pub create_virtual_machine : ℕ → VirtualMachine → Action Result
create_virtual_machine pc vm = create_by_type pc vm (check_vm_type vm)

-- An error of an update: unrecoverable if it is a task's.
abbrev give_up_on_task : {A : Type 0} → VirtualMachine → Error → Action A
give_up_on_task vm e = if is_task_error e then give_up vm e else fail e

-- `UpdateVirtualMachine`; its result is read only beside an error, and is empty then.
unfoldable pub update_virtual_machine : ℕ → VirtualMachine → Action (Unit {0})
update_virtual_machine pc vm =
    handle (update_vm pc vm) (give_up_on_task vm)
      λ _. handle (configure_virtual_machine pc vm) (give_up_on_task vm) return

-- `handleAutoStart`
unfoldable pub handle_auto_start : ℕ → VirtualMachine → Action Result
handle_auto_start pc vm = if not vm.spec.enable_auto_start then return dont_requeue else (do
  state ← get_vm_state pc vm.spec.name vm.spec.node_name
  if text_eq state stopped_state
      then handle (start_vm pc vm.spec.name vm.spec.node_name) (give_up_on_task vm)
          (λ _. return (requeue_in 1))
      else return dont_requeue)
