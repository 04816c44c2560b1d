-- ===== src/Controller/TemplateReconcile.antt =====
-- `Reconcile` of internal/controller/proxmox/virtualmachinetemplate_controller.go.
use kubemox.Api.{VirtualMachineTemplate}
use kubemox.Base.{Text, bytes, if◌then◌else◌, not, text_eq, ℕ, ◌==◌}
use kubemox.Client.FromRef.{new_client_from_ref}
use kubemox.Controller.Claims.{claim_guest}
use kubemox.Controller.Mode.{Result, disable, dont_requeue, get_reconcile_mode, ignore_not_found}
use kubemox.Controller.TemplateDeletion.{
  add_template_finalizer, handle_template_delete, template_kind,
  virtual_machine_template_finalizer_name,
}
use kubemox.Controller.TemplateOperations.{
  handle_image_operations, handle_storage_download_url, handle_template_cloud_init,
  handle_vm_creation, mark_available,
}
use kubemox.GuestName.Defs.{for_template}
use kubemox.World.Call.{Call}
use kubemox.World.Monad.{Action, gets, handle, perform, return, ◌>>=◌, ◌>>◌}

-- The lines of `Reconcile` behind the image.
unfoldable pub reconcile_template_guest : ℕ → VirtualMachineTemplate → Action Result
reconcile_template_guest pc t =
    handle (handle_vm_creation pc t) (ignore_not_found dont_requeue) λ _.
      handle (handle_template_cloud_init pc t) (ignore_not_found dont_requeue) λ _.
        handle (mark_available t (bytes "Ready") (bytes "VirtualMachineTemplate is ready"))
          (ignore_not_found dont_requeue) (λ _. return dont_requeue)

-- The branch of an object that is not being deleted.
unfoldable pub reconcile_kept_template : ℕ → VirtualMachineTemplate → Action Result
reconcile_kept_template pc t =
    handle (add_template_finalizer t) (ignore_not_found dont_requeue) λ _.
      handle (handle_image_operations t) (ignore_not_found dont_requeue) λ _.
        handle (handle_storage_download_url t) (ignore_not_found dont_requeue) λ answer.
          let (result, available) = answer in
          if not (result.requeue_after == 0)
          then return result
          else reconcile_template_guest pc available

-- The branch of an object that is being deleted: the error is returned as it is.
unfoldable pub reconcile_template_deletion : ℕ → VirtualMachineTemplate → Action Result
reconcile_template_deletion pc t = do
  env ← gets (λ w. w.env)
  if env.contains_finalizer t.metadata.finalizers virtual_machine_template_finalizer_name
      then handle_template_delete pc t >> return dont_requeue
      else return dont_requeue

-- The lines of `Reconcile` behind the claim.
unfoldable pub reconcile_owned_template : VirtualMachineTemplate → Action Result
reconcile_owned_template t =
    if text_eq (get_reconcile_mode t.metadata) disable then return dont_requeue else (do
      pc ← new_client_from_ref t.spec.connection_ref
      if t.metadata.deleting
          then reconcile_template_deletion pc t
          else reconcile_kept_template pc t)

-- `Reconcile`, once the object is read
unfoldable pub reconcile_template : VirtualMachineTemplate → Action Result
reconcile_template t = do
  claimed ←
      claim_guest template_kind t.metadata t.conditions (for_template t)
        virtual_machine_template_finalizer_name
  if not claimed.owned
      then return claimed.result
      else reconcile_owned_template (record t { conditions = claimed.conditions })

-- `Reconcile`, with `handleResourceNotFound`
unfoldable pub reconcile_template_object : Text → Text → Action Result
reconcile_template_object namespace name = do
  history ← gets (λ w. w.trace)
  handle (perform (Call.kube_get template_kind namespace name)) (ignore_not_found dont_requeue)
      λ _. do t ← gets (λ w. w.env.stored_template history namespace name); reconcile_template t
