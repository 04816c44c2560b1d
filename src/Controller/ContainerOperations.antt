-- ===== src/Controller/ContainerOperations.antt =====
-- Creating, updating and replacing the guest of a Container:
-- internal/controller/proxmox/container_controller.go. Log lines are left out.
use kubemox.Api.{Container, ContainerTemplateImage}
use kubemox.Base.{
  Bool, Text, [], bytes, false, if◌then◌else◌, is_nil, is_space, none, not, some, text_eq, trim, ℕ,
  ◌&&◌, ◌||◌,
}
use kubemox.Client.Container.{container_exists, get_container, lxc_at}
use kubemox.Client.ContainerPower.{
  clone_container, get_container_state, start_container, update_container,
}
use kubemox.Client.Power.{stopped_state}
use kubemox.Controller.Actions.{record_event}
use kubemox.Controller.ContainerDeletion.{container_kind, delete_container_for_replace}
use kubemox.Controller.Mode.{Result, dont_requeue, ignore_not_found, requeue_in, update_object}
use kubemox.Oci.Names.{lxc_has_oci_image_tag}
use kubemox.World.Call.{Call}
use kubemox.World.Env.{Lxc}
use kubemox.World.Monad.{Action, gets, handle, on_option, perform, return, ◌>>=◌, ◌>>◌}

-- `CloneContainer` of the reconciler.
unfoldable pub clone_and_start : ℕ → Container → Action (Unit {0})
clone_and_start pc container =
    record_event (bytes "Creating") container.spec.name
    >> clone_container pc container
    >> start_container pc container.spec.name container.spec.node_name
    >> record_event (bytes "Created") container.spec.name

-- `UpdateContainer` of the reconciler.
unfoldable pub update_and_save : ℕ → Container → Action (Unit {0})
update_and_save pc container =
    update_container pc container
    >> record_event (bytes "Updated") container.metadata.name
    >> update_object container_kind container.metadata container.metadata.finalizers

-- `patchAppliedOCIImageStatus`
unfoldable pub patch_applied_oci_image_status : Container → Text → Text → Action (Unit {0})
patch_applied_oci_image_status c ref storage =
    perform (Call.patch_image c.metadata.namespace c.metadata.name ref storage)

-- The two fields that a patch leaves in the object.
abbrev pub with_image : Container → Text → Text → Container
with_image c ref storage = record c {
  applied_image_reference = ref;
  applied_image_storage = storage;
}

-- `StartOrUpdateContainer`
unfoldable pub start_or_update_container : ℕ → Container → Action (Unit {0})
start_or_update_container pc container = do
  state ← get_container_state pc container.spec.name container.spec.node_name
  if text_eq state stopped_state
      then start_container pc container.spec.name container.spec.node_name
      else update_and_save pc container

-- `handleCloneContainer`: the object, with the image that is recorded.
unfoldable pub handle_clone_container : ℕ → Container → Action Container
handle_clone_container pc container =
    clone_and_start pc container
    >> on_option container.spec.template.image (return container) (λ img. do
      patch_applied_oci_image_status container img.reference img.storage
      return (with_image container img.reference img.storage))

-- The lines of `reconcileOCIImageDrift` that replace a container, with their event.
unfoldable pub replace_container : ℕ → Container → Action (Bool × Container)
replace_container pc container = do
  record_event (bytes "Replacing") container.spec.name
  delete_container_for_replace pc container
  patch_applied_oci_image_status container [] []
  return (false, with_image container [] [])

-- The lines that record the image of a container that is there.
unfoldable pub adopt_image : Container → ContainerTemplateImage → Bool → Action (Bool × Container)
adopt_image container img exists = do
  patch_applied_oci_image_status container img.reference img.storage
  return (exists, with_image container img.reference img.storage)

-- The tags of a container: none where its configuration is nil.
abbrev pub tags_of : Lxc → Text
tags_of c = elim c.container_config [ none ↦ [] | some config ↦ config.tags ]

-- The switch of `reconcileOCIImageDrift` on the tags.
unfoldable pub reconcile_tags :
    ℕ → Container → ContainerTemplateImage → Bool → Action (Bool × Container)
reconcile_tags pc container img exists = do
  p ← get_container pc container.spec.name container.spec.node_name
  lxc ← lxc_at p
  image_id ← gets (λ w. w.env.image_id)
  let tags = tags_of lxc
  if lxc_has_oci_image_tag image_id tags img.reference
      then adopt_image container img exists
      else if is_nil (trim is_space tags)
      then adopt_image container img exists
      else replace_container pc container

-- Whether the status records the image, or records any.
abbrev pub records_image : Container → ContainerTemplateImage → Bool
records_image container img =
    text_eq container.applied_image_reference img.reference
    && text_eq container.applied_image_storage img.storage

abbrev pub records_any : Container → Bool
records_any container =
    not (is_nil container.applied_image_reference) || not (is_nil container.applied_image_storage)

-- `reconcileOCIImageDrift`: whether the container exists then, and the object.
unfoldable pub reconcile_oci_image_drift : ℕ → Container → Bool → Action (Bool × Container)
reconcile_oci_image_drift pc container exists =
    on_option container.spec.template.image (return (exists, container)) λ img.
      if records_image container img
      then return (exists, container)
      else if records_any container
      then replace_container pc container
      else if not exists
      then return (false, container)
      else reconcile_tags pc container img exists

-- The last branch of `handleContainerOperations`; the object is not read behind it but by its
-- specification.
unfoldable pub create_or_update_container : ℕ → Bool × Container → Action (Unit {0})
create_or_update_container pc (exists, container) =
    if exists
    then handle (start_or_update_container pc container) (ignore_not_found tt) return
    else handle (handle_clone_container pc container) (ignore_not_found tt) (λ _. return tt)

-- `handleContainerOperations`
unfoldable pub handle_container_operations : ℕ → Container → Action (Unit {0})
handle_container_operations pc container =
    handle (container_exists pc container.spec.name container.spec.node_name) (ignore_not_found tt)
      λ exists.
        handle (reconcile_oci_image_drift pc container exists) (ignore_not_found tt)
          (create_or_update_container pc)

-- `handleAutoStart`
unfoldable pub handle_container_auto_start : ℕ → Container → Action Result
handle_container_auto_start pc container =
    if not container.spec.enable_auto_start then return dont_requeue else (do
      state ← get_container_state pc container.spec.name container.spec.node_name
      if text_eq state stopped_state
          then start_container pc container.spec.name container.spec.node_name
            >> return (requeue_in 1)
          else return dont_requeue)
