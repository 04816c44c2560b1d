-- ===== src/Client/ContainerDeletion.antt =====
-- What `DeleteContainer` and the lookup of containers promise: pkg/proxmox/containers.go.
use kubemox.Base.{
  Bool, List, Text, [], arith, false, get_elem?, none, refl, text_eq, text_eq_refl, true, ℕ, ◌&&◌,
  ◌∷◌, ◌≡◌,
}
use kubemox.Client.Cache.{
  containers_of, delete_cached_container, delete_cached_container_object, entry_of, read_map,
}
use kubemox.Client.Container.{
  delete_container, delete_if_named, destroy_container, find_container, stop_and_destroy,
}
use kubemox.Client.Lookup.{ids_where}
use kubemox.World.Call.{Call, Event}
use kubemox.World.Ends.{Ends, Ends-intro, Ends-ok, ends_rules}
use kubemox.World.Env.{Listing}
use kubemox.World.Monad.{World, fail, gets, modify, ok, on_option, perform, return, wait_for, ◌>>=◌}
use kubemox.World.Trace.{is_wait}
use mathlib.Core.Option

-- The container that `GetContainerID` and `ContainerExists` pick is the first of those that
-- `ContainerIDsByName` lists.
pub find_container-ids_where :
    (container_name : Text) (cs : List Listing)
    → Option.map (λ (c : Listing). c.vmid) (find_container container_name cs)
      ≡ get_elem? (ids_where (λ name. text_eq name container_name) cs) 0
unfolding find_container
find_container-ids_where container_name [] = refl
find_container-ids_where container_name (c ∷ cs) =
    ground (arith, find_container-ids_where container_name cs)

abbrev pub is_container_deletion : Call → Bool
is_container_deletion (Call.delete_container _) = true
is_container_deletion _ = false

-- The last two calls are the deletion of a container and the wait for its task, and both went well.
abbrev pub deleted_last : List Event → Bool
deleted_last (waited ∷ (asked ∷ _)) =
    is_wait waited.call && waited.succeeded && (asked.succeeded && is_container_deletion asked.call)
deleted_last _ = false

abbrev Deleted : ℕ → Text → Text → World → Type 0
Deleted pc container_name node_name w =
    (read_map (containers_of (entry_of pc node_name w)) container_name ≡ none)
    × (deleted_last w.trace ≡ true)

destroy_ok :
    (pc : ℕ) (container_name node_name : Text) (p : ℕ) (w w' : World)
    → destroy_container pc container_name node_name p w ≡ ok tt w'
    → Deleted pc container_name node_name w'
unfolding destroy_container delete_cached_container delete_cached_container_object perform wait_for
    gets modify return fail on_option ◌>>=◌
destroy_ok pc container_name node_name p w w' h = (
  ground (arith, text_eq_refl node_name, text_eq_refl container_name),
  ground (arith, text_eq_refl node_name, text_eq_refl container_name),
)

destroy-Ends :
    (pc : ℕ) (container_name node_name : Text) (p : ℕ)
    → Ends (Deleted pc container_name node_name) (destroy_container pc container_name node_name p)
destroy-Ends pc container_name node_name p =
    Ends-intro (destroy_container pc container_name node_name p)
      (destroy_ok pc container_name node_name p)

delete_container-Ends :
    (pc : ℕ) (container_name node_name : Text)
    → Ends (Deleted pc container_name node_name) (delete_container pc container_name node_name)
unfolding delete_container delete_if_named stop_and_destroy
delete_container-Ends pc container_name node_name = search (ends_rules, destroy-Ends) depth 20

-- Where `DeleteContainer` ends with no error, the last two calls are the deletion of a container and the
-- wait for its task, both went well, and the name is no longer cached.
pub delete_container-confirmed :
    (pc : ℕ) (container_name node_name : Text) (w w' : World)
    → delete_container pc container_name node_name w ≡ ok tt w'
    → (read_map (containers_of (entry_of pc node_name w')) container_name ≡ none)
      × (deleted_last w'.trace ≡ true)
delete_container-confirmed pc container_name node_name w w' h =
    Ends-ok (delete_container pc container_name node_name) tt w w'
      (delete_container-Ends pc container_name node_name) h
