-- ===== src/Client/Container.antt =====
-- Containers: `GetContainerID`, `ContainerExists`, `GetContainer`, `refreshContainer` and `DeleteContainer`
-- of pkg/proxmox/containers.go.
use kubemox.Base.{
  Bool, List, Option, Text, [], bytes, contains, false, if◌then◌else◌, none, not, some, text_eq,
  to_lower, true, ℕ, ◌&&◌, ◌*◌, ◌++◌, ◌+◌, ◌==◌, ◌||◌, ◌∷◌,
}
use kubemox.Client.Cache.{
  delete_cached_container, delete_cached_container_object, get_cached_container,
  get_cached_container_id, get_node, set_cached_container, set_cached_container_id,
}
use kubemox.Client.Lookup.{containers, on_node}
use kubemox.Client.Power.{running_state, stopped_state}
use kubemox.World.Call.{Call}
use kubemox.World.Env.{Listing, Lxc, TaskEnd}
use kubemox.World.Error.{Error, is_not_found, message, not_found, other, task_error}
use kubemox.World.Monad.{
  Action, fail, gets, handle, modify, on_option, perform, return, wait_for, ◌>>=◌, ◌>>◌,
}

-- `isLXCNotRunningErr`
unfoldable pub is_lxc_not_running : Error → Bool
is_lxc_not_running e = contains (to_lower (message e)) (bytes "not running")

-- `isContainerGoneErr`
unfoldable pub is_container_gone : Error → Bool
is_container_gone e =
    is_not_found e
    || (contains (to_lower (message e)) (bytes "configuration file")
        && contains (to_lower (message e)) (bytes "does not exist"))

-- The first entry with the name.
unfoldable pub find_container : Text → List Listing → Option Listing
find_container name [] = none
find_container name (c ∷ cs) = if text_eq c.name name then some c else find_container name cs

-- `GetContainerID`; 0 with a nil error where no container has the name.
unfoldable pub get_container_id : ℕ → Text → Text → Action ℕ
get_container_id pc container_name node_name = do
  node ← get_node pc node_name
  cached ← get_cached_container_id pc node_name container_name
  on_option cached
      (do
        cs ← containers node
        on_option (find_container container_name cs) (return 0)
            λ c. do set_cached_container_id pc node_name container_name c.vmid; return c.vmid)
      return

-- `ContainerExists`, which looks into the cache first.
unfoldable pub container_exists : ℕ → Text → Text → Action Bool
container_exists pc container_name node_name = do
  cached ← get_cached_container_id pc node_name container_name
  on_option cached
      (do
        node ← get_node pc node_name
        cs ← containers node
        on_option (find_container container_name cs) (return false)
            λ c. do set_cached_container_id pc node_name container_name c.vmid; return true)
      (λ _. return true)

-- A new object behind a new pointer.
abbrev pub new_lxc : Lxc → Action ℕ
new_lxc c = do
  p ← gets (λ w. w.next_lxc)
  modify (λ w. record w { lxcs = λ q. if q == p then c else w.lxcs q; next_lxc = p + 1 })
  return p

abbrev pub lxc_at : ℕ → Action Lxc
lxc_at p = gets (λ w. w.lxcs p)

-- `node.Container(ctx, containerID)`
unfoldable pub fetch_container : Option Text → ℕ → Action ℕ
fetch_container node container_id = on_node node λ n. do
  history ← gets (λ w. w.trace)
  perform (Call.get_container n container_id)
  c ← gets (λ w. w.env.fetched_container history n container_id)
  new_lxc c

-- The memory of a configuration, in bytes.
abbrev max_mem_of : Option ℕ → ℕ
max_mem_of none = 0
max_mem_of (some memory) = memory * 1024 * 1024

-- `lxcFromConfigWhenStopped`
unfoldable pub lxc_from_config_when_stopped : Text → ℕ → Action Lxc
lxc_from_config_when_stopped node_name container_id = do
  history ← gets (λ w. w.trace)
  perform (Call.lxc_config node_name container_id)
  cc ← gets (λ w. w.env.stopped_config history node_name container_id)
  return (record {
    vmid = container_id;
    name = cc.hostname;
    status = stopped_state;
    cpus = cc.cores;
    max_mem = max_mem_of cc.memory;
    container_config = some cc;
  })

-- Both entries of a container are dropped from the caches.
abbrev pub forget_container : ℕ → Text → Text → ℕ → Action (Unit {0})
forget_container pc node_name container_name container_id =
    delete_cached_container pc node_name container_name
    >> delete_cached_container_object pc node_name container_id

abbrev pub container_missing : Text → Error
container_missing name = not_found (bytes "container " ++ name ++ bytes " not found")

-- The two endings of `refreshContainer`: a container that was read, and an error.
abbrev pub store_container : ℕ → Text → ℕ → ℕ → Action ℕ
store_container pc node_name container_id p =
    set_cached_container pc node_name container_id p >> return p

abbrev pub lost_container : ℕ → Text → Text → ℕ → Error → Action ℕ
lost_container pc container_name node_name container_id e =
    if is_container_gone e
    then (forget_container pc node_name container_name container_id
        >> fail (container_missing container_name))
    else fail e

-- `refreshContainer`
unfoldable pub refresh_container : ℕ → Text → Text → Action ℕ
refresh_container pc container_name node_name = do
  node ← get_node pc node_name
  container_id ← get_container_id pc container_name node_name
  if container_id == 0
      then fail (container_missing container_name)
      else handle (fetch_container node container_id)
          (λ e.
            if is_lxc_not_running e
            then handle (lxc_from_config_when_stopped node_name container_id >>= new_lxc)
                (lost_container pc container_name node_name container_id)
                (store_container pc node_name container_id)
            else lost_container pc container_name node_name container_id e)
          (store_container pc node_name container_id)

-- `GetContainer`
unfoldable pub get_container : ℕ → Text → Text → Action ℕ
get_container pc container_name node_name = do
  container_id ← get_container_id pc container_name node_name
  cached ← get_cached_container pc node_name container_id
  on_option cached (refresh_container pc container_name node_name) return

-- `container.Ping(ctx)` refreshes the object behind the pointer.
unfoldable pub ping_container : ℕ → Action (Unit {0})
ping_container p = do
  history ← gets (λ w. w.trace)
  c ← lxc_at p
  perform (Call.ping_container c.vmid)
  modify
      (λ w. record w { lxcs = λ q. if q == p then w.env.pinged_container history c else w.lxcs q })

-- The lines that follow a wait of `DeleteContainer`: here a task that does not complete in time is an
-- error also where the wait's error is nil.
abbrev pub finish_container_task : Text → TaskEnd → Action (Unit {0}) → Action (Unit {0})
finish_container_task what end rest =
    if not end.completed
    then on_option end.error (fail (other (bytes "timeout waiting for " ++ what))) fail
    else if not end.status
    then fail (task_error end.exit_status)
    else rest

-- The last lines of `DeleteContainer`, from the deletion on.
unfoldable pub destroy_container : ℕ → Text → Text → ℕ → Action (Unit {0})
destroy_container pc container_name node_name p = do
  c ← lxc_at p
  perform (Call.delete_container c.vmid)
  end ← wait_for 5 5
  finish_container_task (bytes "delete") end
      (do deleted ← lxc_at p; forget_container pc node_name container_name deleted.vmid)

-- The lines of `DeleteContainer` behind the check of the name.
unfoldable pub stop_and_destroy : ℕ → Text → Text → ℕ → Lxc → Action (Unit {0})
stop_and_destroy pc container_name node_name p current =
    if text_eq current.status running_state
    then (do
      c ← lxc_at p
      perform (Call.stop_container c.vmid)
      end ← wait_for 3 5
      finish_container_task (bytes "stop") end (destroy_container pc container_name node_name p))
    else destroy_container pc container_name node_name p

-- The container is gone, or its VMID has another name now.
abbrev pub drop_container : ℕ → Text → Text → ℕ → Action (Unit {0})
drop_container pc container_name node_name p = do
  c ← lxc_at p
  forget_container pc node_name container_name c.vmid
  fail (container_missing container_name)

-- The check of the container's present name.
unfoldable pub delete_if_named : ℕ → Text → Text → ℕ → Lxc → Action (Unit {0})
delete_if_named pc container_name node_name p current =
    if not (text_eq current.name container_name)
    then drop_container pc container_name node_name p
    else stop_and_destroy pc container_name node_name p current

abbrev pub unless_gone : ℕ → Text → Text → ℕ → Error → Action (Unit {0})
unless_gone pc container_name node_name p e =
    if is_container_gone e then drop_container pc container_name node_name p else fail e

-- `DeleteContainer`
unfoldable pub delete_container : ℕ → Text → Text → Action (Unit {0})
delete_container pc container_name node_name =
    handle (get_container pc container_name node_name)
      (λ e.
        if is_container_gone e
        then (delete_cached_container pc node_name container_name >> fail (not_found (message e)))
        else fail e)
      (λ p.
        handle (ping_container p)
          (λ e.
            if is_lxc_not_running e
            then (do
              c ← lxc_at p
              handle (lxc_from_config_when_stopped node_name c.vmid)
                  (unless_gone pc container_name node_name p)
                  (delete_if_named pc container_name node_name p))
            else unless_gone pc container_name node_name p e)
          (λ _. do current ← lxc_at p; delete_if_named pc container_name node_name p current))
