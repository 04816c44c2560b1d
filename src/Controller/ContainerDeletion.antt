-- ===== src/Controller/ContainerDeletion.antt =====
-- Finalizers and deletion of a Container: `handleFinalizer`, `handleDelete`, `handleContainerDeletion` and
-- `deleteContainerForReplace` of internal/controller/proxmox/container_controller.go.
use kubemox.Api.{Condition, Container, ObjectMeta}
use kubemox.Base.{Text, bytes, if◌then◌else◌, not, ℕ}
use kubemox.Client.Container.{delete_container}
use kubemox.Controller.Actions.{record_event}
use kubemox.Controller.Deletion.{has_condition}
use kubemox.Controller.Mode.{
  Result, dont_requeue, ignore_not_found, patch_conditions, requeue_in, update_object,
}
use kubemox.World.Error.{is_not_found, is_task_error, message, terminal}
use kubemox.World.Monad.{Action, fail, gets, handle, return, ◌>>=◌, ◌>>◌}

abbrev pub container_kind : Text
container_kind = bytes "Container"

abbrev pub container_finalizer_name : Text
container_finalizer_name = bytes "container.proxmox.alperen.cloud/finalizer"

-- `handleFinalizer`: the metadata of the object, with its finalizer.
unfoldable pub add_container_finalizer : Container → Action ObjectMeta
add_container_finalizer container = do
  env ← gets (λ w. w.env)
  let metadata = container.metadata
  if env.contains_finalizer metadata.finalizers container_finalizer_name
      then return metadata
      else (do
        let finalizers = env.add_finalizer metadata.finalizers container_finalizer_name
        update_object container_kind metadata finalizers
        return (record metadata { finalizers = finalizers }))

-- `handleContainerDeletion`
unfoldable pub handle_container_deletion : ℕ → Container → Action (Unit {0})
handle_container_deletion pc container =
    record_event (bytes "Deleting") container.spec.name
    >> (if container.spec.deletion_protection
        then return tt
        else handle (delete_container pc container.spec.name container.spec.node_name)
            (λ e.
              if is_not_found e
              then return tt
              else if is_task_error e
              then record_event (bytes "Error") (message e) >> fail (terminal e)
              else fail e)
            (λ _. record_event (bytes "Deleted") container.spec.name))

abbrev deleting_container : Condition
deleting_container = record {
  type = bytes "Deleting";
  status = bytes "Unknown";
  reason = bytes "Deleting";
  message = bytes "Deleting Container";
  observed_generation = 0;
}

-- The lines of `handleDelete` behind the condition.
unfoldable pub delete_and_release_container : ℕ → Container → Action Result
delete_and_release_container pc container = do
  handle_container_deletion pc container
  env ← gets (λ w. w.env)
  let metadata = container.metadata
  let (finalizers, _) = env.remove_finalizer metadata.finalizers container_finalizer_name
  handle (update_object container_kind metadata finalizers) (ignore_not_found dont_requeue)
      (λ _. return dont_requeue)

-- `handleDelete`
unfoldable pub handle_container_delete : ℕ → Container → Action Result
handle_container_delete pc container = do
  env ← gets (λ w. w.env)
  if not (has_condition env container.conditions (bytes "Deleting") (bytes "Unknown"))
      then (do
        let (conditions, _) = env.set_condition container.conditions deleting_container
        handle (patch_conditions container_kind container.metadata conditions)
            (ignore_not_found dont_requeue) (λ _. return (requeue_in 1)))
      else delete_and_release_container pc container

-- `deleteContainerForReplace`
unfoldable pub delete_container_for_replace : ℕ → Container → Action (Unit {0})
delete_container_for_replace pc container =
    handle (delete_container pc container.spec.name container.spec.node_name)
      (λ e. if is_not_found e then return tt else fail e) return
