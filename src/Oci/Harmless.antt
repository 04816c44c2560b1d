-- ===== src/Oci/Harmless.antt =====
-- Which operations on containers destroy one: pkg/proxmox/containers.go and its caches.
use kubemox.Api.{Container}
use kubemox.Base.{Option, Text, false, if◌then◌else◌, refl, ℕ, ◌==◌, ◌≡◌}
use kubemox.Client.Cache.{
  delete_cached_container, delete_cached_container_object, get_cached_container,
  get_cached_container_id, get_node, set_cached_container, set_cached_container_id, set_entry,
}
use kubemox.Client.Container.{
  container_exists, fetch_container, get_container, get_container_id, lxc_from_config_when_stopped,
  new_lxc, ping_container, refresh_container,
}
use kubemox.Client.ContainerDeletion.{is_container_deletion}
use kubemox.Client.ContainerPower.{
  get_container_state, power_on_container, start_container, update_container,
}
use kubemox.Client.Lookup.{containers}
use kubemox.World.Call.{Call}
use kubemox.World.Env.{Lxc}
use kubemox.World.Keeps.{keeps_rules}
use kubemox.World.Monad.{NodeCache, World, crash, modify, note, perform, wait_for}
use kubemox.World.Trace.{
  Avoids, Avoids-crash, Avoids-modify, Avoids-note, Avoids-perform, Avoids-wait_for,
}

pub perform_kept :
    (c : Call) → is_container_deletion c ≡ false → Avoids is_container_deletion (perform c)
perform_kept c h = Avoids-perform is_container_deletion c h

pub note_kept : (c : Call) → is_container_deletion c ≡ false → Avoids is_container_deletion (note c)
note_kept c h = Avoids-note is_container_deletion c h

pub wait_kept : (times steps : ℕ) → Avoids is_container_deletion (wait_for times steps)
wait_kept times steps = Avoids-wait_for is_container_deletion times steps refl

pub crash_kept : {A : Type 0} → Avoids {A = A} is_container_deletion crash
crash_kept = Avoids-crash is_container_deletion

pub entry_kept :
    (pc : ℕ) (node_name : Text) (entry : NodeCache)
    → Avoids is_container_deletion (modify (set_entry pc node_name entry))
entry_kept pc node_name entry =
    Avoids-modify is_container_deletion (set_entry pc node_name entry) (λ w. refl)

pub lxc_kept :
    (p : ℕ) (f : World → Lxc) (g : World → ℕ)
    → Avoids is_container_deletion
        (modify (λ w. record w { lxcs = λ q. if q == p then f w else w.lxcs q; next_lxc = g w }))
lxc_kept p f g =
    Avoids-modify is_container_deletion
      (λ w. record w { lxcs = λ q. if q == p then f w else w.lxcs q; next_lxc = g w }) (λ w. refl)

pub pinged_kept :
    (p : ℕ) (f : World → Lxc)
    → Avoids is_container_deletion
        (modify (λ w. record w { lxcs = λ q. if q == p then f w else w.lxcs q }))
pinged_kept p f =
    Avoids-modify is_container_deletion
      (λ w. record w { lxcs = λ q. if q == p then f w else w.lxcs q }) (λ w. refl)

pub ruleset gentle_rules =
    (keeps_rules, perform_kept, note_kept, wait_kept, crash_kept, entry_kept, lxc_kept, pinged_kept)

pub get_node_kept :
    (pc : ℕ) (node_name : Text) → Avoids is_container_deletion (get_node pc node_name)
unfolding get_node
get_node_kept pc node_name = search gentle_rules

pub set_id_kept :
    (pc : ℕ) (node_name name : Text) (id : ℕ)
    → Avoids is_container_deletion (set_cached_container_id pc node_name name id)
unfolding set_cached_container_id
set_id_kept pc node_name name id = search gentle_rules depth 9

pub get_id_kept :
    (pc : ℕ) (name node_name : Text)
    → Avoids is_container_deletion (get_container_id pc name node_name)
unfolding get_container_id get_cached_container_id containers
get_id_kept pc name node_name = search (gentle_rules, get_node_kept, set_id_kept) depth 14

pub container_exists_kept :
    (pc : ℕ) (name node_name : Text)
    → Avoids is_container_deletion (container_exists pc name node_name)
unfolding container_exists get_cached_container_id containers
container_exists_kept pc name node_name = search (gentle_rules, get_node_kept, set_id_kept) depth 14

store_kept :
    (pc : ℕ) (node_name : Text) (id p : ℕ)
    → Avoids is_container_deletion (set_cached_container pc node_name id p)
unfolding set_cached_container
store_kept pc node_name id p = search gentle_rules depth 9

forget_kept :
    (pc : ℕ) (node_name name : Text)
    → Avoids is_container_deletion (delete_cached_container pc node_name name)
unfolding delete_cached_container
forget_kept pc node_name name = search gentle_rules depth 9

forget_object_kept :
    (pc : ℕ) (node_name : Text) (id : ℕ)
    → Avoids is_container_deletion (delete_cached_container_object pc node_name id)
unfolding delete_cached_container_object
forget_object_kept pc node_name id = search gentle_rules depth 9

new_lxc_kept : (c : Lxc) → Avoids is_container_deletion (new_lxc c)
new_lxc_kept c = search gentle_rules depth 9

fetch_kept : (node : Option Text) (id : ℕ) → Avoids is_container_deletion (fetch_container node id)
unfolding fetch_container
fetch_kept target id = search (gentle_rules, new_lxc_kept) depth 12

config_kept :
    (node_name : Text) (id : ℕ)
    → Avoids is_container_deletion (lxc_from_config_when_stopped node_name id)
unfolding lxc_from_config_when_stopped
config_kept node_name id = search gentle_rules depth 9

refresh_kept :
    (pc : ℕ) (name node_name : Text)
    → Avoids is_container_deletion (refresh_container pc name node_name)
unfolding refresh_container
refresh_kept pc name node_name =
    search
      (
        gentle_rules, get_node_kept, get_id_kept, fetch_kept, config_kept, new_lxc_kept, store_kept,
        forget_kept, forget_object_kept,
      )
      depth 18

pub get_container_kept :
    (pc : ℕ) (name node_name : Text)
    → Avoids is_container_deletion (get_container pc name node_name)
unfolding get_container get_cached_container
get_container_kept pc name node_name = search (gentle_rules, get_id_kept, refresh_kept) depth 9

ping_kept : (p : ℕ) → Avoids is_container_deletion (ping_container p)
unfolding ping_container
ping_kept p = search gentle_rules depth 9

power_on_kept :
    (pc : ℕ) (node_name : Text) (p : ℕ)
    → Avoids is_container_deletion (power_on_container pc node_name p)
unfolding power_on_container
power_on_kept pc node_name p = search (gentle_rules, forget_object_kept) depth 14

pub start_container_kept :
    (pc : ℕ) (name node_name : Text)
    → Avoids is_container_deletion (start_container pc name node_name)
unfolding start_container
start_container_kept pc name node_name =
    search (gentle_rules, get_container_kept, ping_kept, power_on_kept) depth 12

pub update_container_kept :
    (pc : ℕ) (container : Container) → Avoids is_container_deletion (update_container pc container)
unfolding update_container
update_container_kept pc container =
    search (gentle_rules, get_container_kept, forget_object_kept) depth 12

pub get_state_kept :
    (pc : ℕ) (name node_name : Text)
    → Avoids is_container_deletion (get_container_state pc name node_name)
unfolding get_container_state
get_state_kept pc name node_name = search (gentle_rules, get_container_kept) depth 9
