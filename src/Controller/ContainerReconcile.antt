-- ===== src/Controller/ContainerReconcile.antt =====
-- `Reconcile` of internal/controller/proxmox/container_controller.go.
use kubemox.Api.{Container}
use kubemox.Base.{Text, if◌then◌else◌, not, text_eq, ℕ}
use kubemox.Client.Container.{container_exists}
use kubemox.Client.FromRef.{new_client_from_ref}
use kubemox.Controller.Claims.{claim_guest}
use kubemox.Controller.ContainerDeletion.{
  add_container_finalizer, container_finalizer_name, container_kind, handle_container_delete,
}
use kubemox.Controller.ContainerOperations.{
  handle_clone_container, handle_container_auto_start, handle_container_operations,
}
use kubemox.Controller.Mode.{
  Result, disable, dont_requeue, ensure_exists, get_reconcile_mode, ignore_not_found, watch_only,
}
use kubemox.GuestName.Defs.{for_container}
use kubemox.World.Call.{Call}
use kubemox.World.Monad.{Action, gets, handle, perform, return, ◌>>=◌}

-- The mode EnsureExists.
unfoldable pub ensure_container_exists : ℕ → Container → Action Result
ensure_container_exists pc container =
    handle (container_exists pc container.spec.name container.spec.node_name)
      (ignore_not_found dont_requeue)
      λ exists.
        if exists
        then return dont_requeue
        else handle (handle_clone_container pc container) (ignore_not_found dont_requeue)
            (λ _. return dont_requeue)

-- The branch of an object that is being deleted; the result of `handleDelete` is read only beside an
-- error.
unfoldable pub reconcile_container_deletion : ℕ → Container → Action Result
reconcile_container_deletion pc container = do
  env ← gets (λ w. w.env)
  if env.contains_finalizer container.metadata.finalizers container_finalizer_name
      then handle (handle_container_delete pc container) (ignore_not_found dont_requeue)
          (λ _. return dont_requeue)
      else return dont_requeue

-- The branch of an object that is not being deleted.
unfoldable pub reconcile_kept_container : ℕ → Container → Action Result
reconcile_kept_container pc container =
    handle (add_container_finalizer container) (ignore_not_found dont_requeue) λ metadata.
      handle (handle_container_operations pc (record container { metadata = metadata }))
        (ignore_not_found dont_requeue)
        (λ _. handle_container_auto_start pc (record container { metadata = metadata }))

-- The switch of `Reconcile` on the mode.
unfoldable pub reconcile_container_in_mode : ℕ → Container → Action Result
reconcile_container_in_mode pc container =
    let mode = get_reconcile_mode container.metadata in
    if text_eq mode watch_only
    then return dont_requeue
    else if text_eq mode ensure_exists
    then ensure_container_exists pc container
    else if text_eq mode disable
    then return dont_requeue
    else if container.metadata.deleting
    then reconcile_container_deletion pc container
    else reconcile_kept_container pc container

-- `Reconcile`, once the object is read
unfoldable pub reconcile_container : Container → Action Result
reconcile_container container = do
  claimed ←
      claim_guest container_kind container.metadata container.conditions (for_container container)
        container_finalizer_name
  if not claimed.owned then return claimed.result else (do
    pc ← new_client_from_ref container.spec.connection_ref
    reconcile_container_in_mode pc (record container { conditions = claimed.conditions }))

-- `Reconcile`, with `handleResourceNotFound`
unfoldable pub reconcile_container_object : Text → Text → Action Result
reconcile_container_object namespace name = do
  history ← gets (λ w. w.trace)
  handle (perform (Call.kube_get container_kind namespace name)) (ignore_not_found dont_requeue)
      λ _. do
        container ← gets (λ w. w.env.stored_container history namespace name)
        reconcile_container container
