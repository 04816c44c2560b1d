-- ===== src/Controller/TemplateDeletion.antt =====
-- Finalizers and deletion of a VirtualMachineTemplate: `handleFinalizer`,
-- `deleteVirtualMachineTemplate` and `handleDelete` of
-- internal/controller/proxmox/virtualmachinetemplate_controller.go.
use kubemox.Api.{Condition, VirtualMachineTemplate}
use kubemox.Base.{Text, bytes, if◌then◌else◌, ℕ}
use kubemox.Client.Power.{delete_vm}
use kubemox.Controller.Actions.{record_event}
use kubemox.Controller.Deletion.{has_condition}
use kubemox.Controller.Mode.{ignore_not_found, patch_conditions, update_object}
use kubemox.World.Error.{is_task_error, message}
use kubemox.World.Monad.{Action, fail, gets, handle, return, ◌>>=◌, ◌>>◌}

abbrev pub template_kind : Text
template_kind = bytes "VirtualMachineTemplate"

abbrev pub virtual_machine_template_finalizer_name : Text
virtual_machine_template_finalizer_name =
    bytes "virtualmachinetemplate.proxmox.alperen.cloud/finalizer"

-- `handleFinalizer`
unfoldable pub add_template_finalizer : VirtualMachineTemplate → Action (Unit {0})
add_template_finalizer t = do
  env ← gets (λ w. w.env)
  if env.contains_finalizer t.metadata.finalizers virtual_machine_template_finalizer_name
      then return tt
      else update_object template_kind t.metadata
          (env.add_finalizer t.metadata.finalizers virtual_machine_template_finalizer_name)

-- `deleteVirtualMachineTemplate`
unfoldable pub delete_virtual_machine_template : ℕ → VirtualMachineTemplate → Action (Unit {0})
delete_virtual_machine_template pc t =
    record_event (bytes "VMTemplateDeleting") t.metadata.name
    >> (if t.spec.deletion_protection
        then return tt
        else handle (delete_vm pc t.spec.name t.spec.node_name)
            (λ e.
              if is_task_error e
              then record_event (bytes "VMTemplateDeleteFailed") (message e) >> fail e
              else fail e)
            return)

abbrev deleting_template : Condition
deleting_template = record {
  type = bytes "Deleting";
  status = bytes "Unknown";
  reason = bytes "Deleting";
  message = bytes "VirtualMachineTemplate is being deleted";
  observed_generation = 0;
}

-- The lines of `handleDelete` behind the condition.
unfoldable pub delete_and_release_template : ℕ → VirtualMachineTemplate → Action (Unit {0})
delete_and_release_template pc t =
    handle (delete_virtual_machine_template pc t) (ignore_not_found tt) λ _. do
      env ← gets (λ w. w.env)
      let (finalizers, _) =
          env.remove_finalizer t.metadata.finalizers virtual_machine_template_finalizer_name
      handle (update_object template_kind t.metadata finalizers) (ignore_not_found tt) return

-- `handleDelete`
unfoldable pub handle_template_delete : ℕ → VirtualMachineTemplate → Action (Unit {0})
handle_template_delete pc t = do
  env ← gets (λ w. w.env)
  if has_condition env t.conditions (bytes "Deleting") (bytes "Unknown")
      then delete_and_release_template pc t
      else (do
        let (conditions, _) = env.set_condition t.conditions deleting_template
        handle (patch_conditions template_kind t.metadata conditions) (ignore_not_found tt)
            (λ _. delete_and_release_template pc t))
