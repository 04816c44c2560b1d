-- ===== src/Controller/ContainerProgress.antt =====
-- How the deletion of a Container ends where all calls go well:
-- internal/controller/proxmox/container_controller.go.
use kubemox.Api.{Container}
use kubemox.Base.{arith, bytes, if◌then◌else◌, refl, true, ℕ, ◌≡◌}
use kubemox.Client.ContainerProgress.{delete-Sure}
use kubemox.Client.ContainerSettled.{Settled, note-Sure}
use kubemox.Controller.ContainerDeletion.{
  container_finalizer_name, container_kind, delete_and_release_container, handle_container_deletion,
}
use kubemox.Controller.Mode.{dont_requeue}
use kubemox.World.Call.{Call}
use kubemox.World.Error.{Error, is_not_found}
use kubemox.World.Monad.{Action, World, gets, handle, logged, ok, perform, return, ◌>>=◌}
use kubemox.World.Sure.{Sure, Sure-bind, Sure-if, Sure-ok, Sure-rescue, Sure-return, no_error}

handle_deletion-Sure :
    (pc : ℕ) (container : Container)
    → Sure (Settled pc container.spec.node_name) no_error (handle_container_deletion pc container)
unfolding handle_container_deletion
handle_deletion-Sure pc container =
    let event = note-Sure pc container.spec.node_name in
    Sure-bind _ _ (event (Call.record_event (bytes "Deleting") container.spec.name)) λ _.
      Sure-if container.spec.deletion_protection _ _ (Sure-return tt) (
        Sure-rescue _ _ _ (delete-Sure pc container.spec.node_name container.spec.name)
          (λ e k. gone e _ k)
          (λ _. event (Call.record_event (bytes "Deleted") container.spec.name)))
  where
    gone :
        (e : Error) (m : Action (Unit {0}))
        → is_not_found e ≡ true
        → Sure
            (Settled pc container.spec.node_name)
            no_error
            (if is_not_found e then return tt else m)
    gone e m h = rw h (Sure-return tt)

-- The update that takes the finalizer off.
abbrev pub container_release : Container → World → Call
container_release container w =
    Call.kube_update container_kind container.metadata.namespace container.metadata.name
      (w.env.remove_finalizer container.metadata.finalizers container_finalizer_name).0

-- The deletion of a container comes to its end: where the client knows the node, every task ends well and no
-- call fails, but for the reads of the state of a container, which may fail because it is not running, the
-- second part of `handleDelete` ends with no error and no requeue, and its last call is the update that takes
-- the finalizer off. So it is whatever Proxmox has under the name: a running container, a stopped one, whose
-- state cannot be read, none, or one that has another name by then.
pub container_deletion-Ends :
    (pc : ℕ) (container : Container) (w : World)
    → Settled pc container.spec.node_name w
    → (w' : World) × (delete_and_release_container pc container w
        ≡ ok dont_requeue (logged (container_release container w') true w'))
unfolding delete_and_release_container ◌>>=◌ handle gets return perform
container_deletion-Ends pc container w s =
    let (a, w1, e, p) =
      Sure-ok (handle_container_deletion pc container) w (handle_deletion-Sure pc container) s in
    (w1, ground (arith, p.no_failure w1.trace (container_release container w1) refl))
