-- ===== src/Controller/TemplateOperations.antt =====
-- The image and the guest of a VirtualMachineTemplate:
-- internal/controller/proxmox/virtualmachinetemplate_controller.go. Log lines are left out.
use kubemox.Api.{CloudInitConfig, Condition, StorageDownloadUrl, VirtualMachineTemplate}
use kubemox.Base.{Text, [], bytes, false, if◌then◌else◌, not, text_eq, ℕ, ◌++◌}
use kubemox.Client.Lookup.{check_vm}
use kubemox.Client.Options.{add_cloud_init_drive, apply_additional_configuration}
use kubemox.Controller.Actions.{record_event}
use kubemox.Controller.Deletion.{has_condition}
use kubemox.Controller.Download.{completed_status, download_kind}
use kubemox.Controller.Mode.{Result, dont_requeue, ignore_not_found, patch_conditions, requeue_in}
use kubemox.Controller.TemplateDeletion.{template_kind}
use kubemox.Template.Machine.{
  add_tag_to_vm_template, check_template_delta, convert_vm_to_template, create_vm_template,
  import_disk_to_vm, set_boot_order, set_cloud_init_config, update_virtual_machine_template,
}
use kubemox.World.Call.{Call}
use kubemox.World.Error.{Error, is_kube_not_found, is_task_error, message, other, task_error}
use kubemox.World.Monad.{
  Action, crash, fail, gets, handle, on_option, perform, return, return_error, wait_for, ◌>>=◌,
  ◌>>◌,
}

-- `fmt.Sprintf(imageNameFormat, vmTemplate.Name)`
abbrev pub image_name : VirtualMachineTemplate → Text
image_name t = t.metadata.name ++ bytes "-image"

-- `createStorageDownloadURLCR`; the fields that the code leaves out are zero.
unfoldable pub create_storage_download_url_cr : VirtualMachineTemplate → Action (Unit {0})
create_storage_download_url_cr t = do
  let source = t.spec.image_config
  env ← gets (λ w. w.env)
  return_error (env.set_controller_reference t.metadata t.metadata.namespace (image_name t))
  perform (
      Call.create_download t.metadata.namespace (image_name t) (record {
        content = bytes "iso";
        filename = source.filename;
        node = source.node;
        storage = source.storage;
        url = source.url;
        checksum = [];
        checksum_algorithm = [];
        compression = [];
        verify_certificate = false;
        connection_ref = t.spec.connection_ref;
      }))

-- `r.Get` of the StorageDownloadURL, with what follows an error and a success.
abbrev read_image :
    {A : Type 0}
    → VirtualMachineTemplate
    → (Error → Action A)
    → (StorageDownloadUrl → Action A)
    → Action A
read_image t h f = do
  history ← gets (λ w. w.trace)
  handle (perform (Call.kube_get download_kind t.metadata.namespace (image_name t))) h (λ _. do
    sdu ← gets (λ w. w.env.stored_download history t.metadata.namespace (image_name t))
    f sdu)

-- `handleImageOperations`
unfoldable pub handle_image_operations : VirtualMachineTemplate → Action (Unit {0})
handle_image_operations t =
    read_image t (λ e. if is_kube_not_found e then create_storage_download_url_cr t else fail e)
      (λ _. return tt)

abbrev available_template : Text → Text → Condition
available_template reason detail = record {
  type = bytes "Available";
  status = bytes "True";
  reason = reason;
  message = detail;
  observed_generation = 0;
}

-- The status patch to Available, where the object does not have the condition; the conditions are read
-- again behind it.
unfoldable pub mark_available : VirtualMachineTemplate → Text → Text → Action VirtualMachineTemplate
mark_available t reason detail = do
  env ← gets (λ w. w.env)
  if has_condition env t.conditions (bytes "Available") (bytes "True") then return t else (do
    let (conditions, _) = env.set_condition t.conditions (available_template reason detail)
    handle (patch_conditions template_kind t.metadata conditions)
        (ignore_not_found (record t { conditions = conditions }))
        (λ _. return (record t { conditions = conditions })))

-- The status of an image that is not there is empty.
abbrev not_ready : VirtualMachineTemplate → Result × VirtualMachineTemplate
not_ready t = (requeue_in 10, t)

-- `handleStorageDownloadURL`: the result, and the object.
unfoldable pub handle_storage_download_url :
    VirtualMachineTemplate → Action (Result × VirtualMachineTemplate)
handle_storage_download_url t =
    read_image t (λ e. if is_kube_not_found e then return (not_ready t) else fail e)
      (λ sdu. if not (text_eq sdu.status completed_status) then return (not_ready t) else (do
        marked ← mark_available t (bytes "Available") (bytes "VirtualMachineTemplate is available")
        return (dont_requeue, marked)))

-- The wait for the creation in `handleVMCreation`.
unfoldable pub await_creation : VirtualMachineTemplate → Action (Unit {0})
await_creation t = do
  end ← wait_for 3 7
  if not end.completed
      then on_option end.error
          (fail (other (bytes "VM creation task timed out for template " ++ t.spec.name))) fail
      else if not end.status
      then fail (task_error end.exit_status)
      else return tt

-- The wait for the tag, with the two events.
unfoldable pub await_tag : VirtualMachineTemplate → Action (Unit {0})
await_tag t = do
  end ← wait_for 3 7
  if not end.status
      then record_event (bytes "VMTemplateCreateFailed") end.exit_status
        >> fail (task_error end.exit_status)
      else if not end.completed
      then return_error end.error
      else record_event (bytes "VMTemplateCreated") t.spec.name

-- The branch of a guest that is not there.
unfoldable pub create_template_guest : ℕ → VirtualMachineTemplate → Action (Unit {0})
create_template_guest pc t =
    create_vm_template pc t
    >> await_creation t
    >> apply_additional_configuration pc t.spec.name t.spec.node_name t.spec.additional_config
    >> add_tag_to_vm_template pc t
    >> await_tag t

-- The branch of a guest that is there: an error of the check counts as no difference.
unfoldable pub update_template_guest : ℕ → VirtualMachineTemplate → Action (Unit {0})
update_template_guest pc t =
    handle (check_template_delta pc t) (λ _. return tt)
      (λ differs. if differs then update_virtual_machine_template pc t else return tt)

-- `handleVMCreation`
unfoldable pub handle_vm_creation : ℕ → VirtualMachineTemplate → Action (Unit {0})
handle_vm_creation pc t = do
  vm_exists ← check_vm pc t.spec.name t.spec.node_name
  if vm_exists then update_template_guest pc t else create_template_guest pc t

-- The event of a task that failed, before its error.
abbrev event_of_task : Text → Error → Action (Unit {0})
event_of_task event e = if is_task_error e then record_event event (message e) >> fail e else fail e

-- The steps of `handleCloudInitOperations` behind the read of the image; a nil `Storage` is a panic.
unfoldable pub set_up_cloud_init :
    ℕ → VirtualMachineTemplate → CloudInitConfig → Text → Action (Unit {0})
set_up_cloud_init pc t config filename =
    on_option t.spec.virtual_machine_config.storage crash λ storage. do
      handle (import_disk_to_vm pc t.spec.name t.spec.node_name filename storage)
          (event_of_task (bytes "VMTemplateImportDiskFailed")) return
      handle (add_cloud_init_drive pc t.spec.name t.spec.node_name)
          (event_of_task (bytes "VMTemplateAddCloudInitDriveFailed")) return
      set_cloud_init_config pc t.spec.name t.spec.node_name t.metadata.namespace config
      set_boot_order pc t.spec.name t.spec.node_name
      convert_vm_to_template pc t.spec.name t.spec.node_name

-- `handleCloudInitOperations`; an image that is not there leaves an empty file name.
unfoldable pub handle_template_cloud_init : ℕ → VirtualMachineTemplate → Action (Unit {0})
handle_template_cloud_init pc t = on_option t.spec.cloud_init_config (return tt) λ config.
    read_image t (λ e. if is_kube_not_found e then set_up_cloud_init pc t config [] else fail e)
      (λ sdu. set_up_cloud_init pc t config sdu.spec.filename)
