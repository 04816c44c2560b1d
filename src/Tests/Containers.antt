-- ===== src/Tests/Containers.antt =====
-- The theorems on containers, at the container of the scenario.
use kubemox.Api.{Container}
use kubemox.Base.{
  Bool, List, Option, [], arith, bytes, contains, false, if◌then◌else◌, inl, none, refl, some,
  text_eq, to_lower, true, ◌∷◌, ◌≡◌,
}
use kubemox.Client.Cache.{no_entries, set_entry}
use kubemox.Client.Container.{is_lxc_not_running}
use kubemox.Client.ContainerCache.{
  Refines, change_caches, change_maps, container_cache-Refines, drop, put, view,
}
use kubemox.Client.ContainerDeletion.{is_container_deletion}
use kubemox.Client.ContainerSettled.{Settled, reads_state}
use kubemox.Controller.Claims.{list_claims, owner}
use kubemox.Controller.ContainerDeletion.{delete_and_release_container}
use kubemox.Controller.ContainerProgress.{container_deletion-Ends, container_release}
use kubemox.Controller.ContainerProtection.{
  container_loser-Avoids-proxmox, reconcile_container-Avoids-deletion,
}
use kubemox.Controller.ContainerReconcile.{reconcile_container}
use kubemox.Controller.Mode.{dont_requeue}
use kubemox.GuestName.Defs.{
  before, conn, for_container, list, owner_from, owner_of, same_guest, same_object,
}
use kubemox.Scenario.{box, calm, start}
use kubemox.World.Call.{Call, Event, reaches_proxmox}
use kubemox.World.Error.{Error, message, other}
use kubemox.World.Monad.{NodeCache, World, after, gets, handle, logged, ok, perform, return, ◌>>=◌}
use kubemox.World.Trace.{Avoided, Avoids}

abbrev removed : Container
removed = record box {
  metadata = record (box.metadata) { deleting = true };
  spec = record (box.spec) { deletion_protection = true };
}

reconcile_container-Avoids-deletion_example :
    Avoids is_container_deletion (reconcile_container removed)
reconcile_container-Avoids-deletion_example =
    reconcile_container-Avoids-deletion removed (inl (refl, refl))

abbrev elder_box : Container
elder_box = record box { metadata = record (box.metadata) { name = bytes "a"; created = 1 } }

abbrev two_boxes : World
two_boxes = record calm {
  env = record (calm.env) { stored_containers = λ _. elder_box ∷ box ∷ [] };
}

container_loser-Avoids-proxmox_example :
    Avoided reaches_proxmox (after (reconcile_container box two_boxes))
unfolding owner ◌>>=◌ list_claims for_container gets handle perform return owner_of owner_from list
    same_guest text_eq conn before same_object
container_loser-Avoids-proxmox_example =
    container_loser-Avoids-proxmox box two_boxes
      (logged (Call.kube_list (bytes "Containers")) true two_boxes) (for_container elder_box) refl
      refl refl

-- The world in which the client knows the node.
abbrev known_entry : NodeCache
known_entry = record {
  node = some (bytes "pve");
  vms = some no_entries;
  vm_objs = none;
  containers = some no_entries;
  container_objs = none;
}

-- The reads of a container's state fail, as they do where it is stopped.
abbrev not_running : Error
not_running = other (bytes "CT 200 not running")

abbrev stopped_only : List Event → Call → Option Error
stopped_only _ c = if reads_state c then some not_running else none

abbrev node_known : World
node_known = set_entry 0 (bytes "pve") known_entry (start stopped_only)

is_not_running : is_lxc_not_running not_running ≡ true
unfolding is_lxc_not_running contains to_lower message
is_not_running = refl

not_running_only :
    (b : Bool) (e : Error)
    → (if b then some not_running else none) ≡ some e
    → is_lxc_not_running e ≡ true
not_running_only true e h = ground (arith, is_not_running)
not_running_only false e h = ground arith

known_node : Settled 0 (bytes "pve") node_known
unfolding text_eq
known_node = record {
  no_failure = λ _ c h. rw h refl;
  stopped = λ _ c e h. not_running_only (reads_state c) e h;
  completed = λ _. refl;
  succeeded = λ _. refl;
  entry = known_entry;
  node = bytes "pve";
  cached = refl;
  known = refl;
}

container_deletion-Ends_example :
    (w' : World) × (delete_and_release_container 0 box node_known
      ≡ ok dont_requeue (logged (container_release box w') true w'))
container_deletion-Ends_example = container_deletion-Ends 0 box node_known known_node

container_cache-Refines_example :
    Refines 0
      (bytes "pve")
      calm
      (change_maps (put (bytes "web") 200 ∷ drop (bytes "web") ∷ []) (view 0 (bytes "pve") calm))
      (change_caches 0 (bytes "pve") (put (bytes "web") 200 ∷ drop (bytes "web") ∷ []))
container_cache-Refines_example =
    container_cache-Refines 0 (bytes "pve") (put (bytes "web") 200 ∷ drop (bytes "web") ∷ []) calm
