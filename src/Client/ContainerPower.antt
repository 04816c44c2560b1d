-- ===== src/Client/ContainerPower.antt =====
-- Containers: `CloneContainer`, `StartContainer`, `GetContainerState`, `UpdateContainer`,
-- `RestartContainer`, `CheckContainerDelta` and `IsContainerReady` of pkg/proxmox/containers.go.
use kubemox.Api.{Container, ContainerTemplate, is_full_clone}
use kubemox.Base.{
  Bool, Text, bytes, false, if◌then◌else◌, is_nil, not, suc, text_eq, true, zero, ℕ, ◌++◌, ◌/◌,
  ◌==◌, ◌||◌,
}
use kubemox.Client.Cache.{delete_cached_container_object, get_node, set_cached_container_id}
use kubemox.Client.Container.{
  finish_container_task, get_container, get_container_id, is_lxc_not_running, lxc_at,
  ping_container, refresh_container,
}
use kubemox.Client.Power.{running_state}
use kubemox.Oci.Create.{create_container_from_oci_image}
use kubemox.Oci.Names.{template_container_name}
use kubemox.World.Call.{Call}
use kubemox.World.Env.{Lxc}
use kubemox.World.Error.{other}
use kubemox.World.Monad.{
  Action, crash, fail, finish_task, gets, handle, on_option, perform, return, wait_for, ◌>>=◌, ◌>>◌,
}

-- The lines of `CloneContainer` for a template with a name.
unfoldable pub clone_named_container : ℕ → Container → Action (Unit {0})
clone_named_container pc container = do
  let node_name = container.spec.node_name
  image_id ← gets (λ w. w.env.image_id)
  let template_name = template_container_name image_id container.spec.template
  template_id ← get_container_id pc template_name node_name
  if template_id == 0
      then fail (
          other (
            bytes "template container "
            ++ template_name
            ++ bytes " not found on node "
            ++ node_name))
      else (do
        p ← get_container pc template_name node_name
        template_container ← lxc_at p
        history ← gets (λ w. w.trace)
        perform (
            Call.clone_container template_container.vmid (is_full_clone container.spec.clone_mode)
              container.spec.name node_name)
        new_id ← gets (λ w. w.env.cloned_container_vmid history)
        end ← wait_for 5 10
        finish_task end (set_cached_container_id pc node_name container.spec.name new_id))

-- `CloneContainer`
unfoldable pub clone_container : ℕ → Container → Action (Unit {0})
clone_container pc container =
    get_node pc container.spec.node_name
    >> on_option container.spec.template.image (clone_named_container pc container)
        (λ _. create_container_from_oci_image pc container)

-- The lines of `StartContainer` behind the ping.
unfoldable pub power_on_container : ℕ → Text → ℕ → Action (Unit {0})
power_on_container pc node_name p = do
  c ← lxc_at p
  perform (Call.start_container c.vmid)
  end ← wait_for 10 3
  finish_container_task (bytes "start") end
      (do started ← lxc_at p; delete_cached_container_object pc node_name started.vmid)

-- `StartContainer`
unfoldable pub start_container : ℕ → Text → Text → Action (Unit {0})
start_container pc container_name node_name = do
  p ← get_container pc container_name node_name
  handle (ping_container p)
      (λ e. if not (is_lxc_not_running e) then fail e else power_on_container pc node_name p)
      (λ _. do
        c ← lxc_at p
        if text_eq c.status running_state then return tt else power_on_container pc node_name p)

-- `GetContainerState`
unfoldable pub get_container_state : ℕ → Text → Text → Action Text
get_container_state pc container_name node_name = do
  p ← get_container pc container_name node_name
  c ← lxc_at p
  return c.status

-- The test of `UpdateContainer` and `CheckContainerDelta`.
unfoldable pub differs : ContainerTemplate → Lxc → Bool
differs t c = not (t.cores == c.cpus) || not (t.memory == c.max_mem / 1024 / 1024)

-- `UpdateContainer`
unfoldable pub update_container : ℕ → Container → Action (Unit {0})
update_container pc container = do
  p ← get_container pc container.spec.name container.spec.node_name
  c ← lxc_at p
  let t = container.spec.template
  if differs t c
      then (do
        perform (Call.config_container c.vmid t.cores t.memory)
        configured ← lxc_at p
        delete_cached_container_object pc container.spec.node_name configured.vmid)
      else return tt

-- `CheckContainerDelta`
unfoldable pub check_container_delta : ℕ → Container → Action Bool
check_container_delta pc container = do
  p ← get_container pc container.spec.name container.spec.node_name
  c ← lxc_at p
  return (differs container.spec.template c)

-- A round of `RestartContainer`; the sleep is left out.
unfoldable pub restart_round : ℕ → Text → Text → Action Bool → Action Bool
restart_round pc container_name node_name rest = do
  p ← refresh_container pc container_name node_name
  current ← lxc_at p
  if text_eq current.status running_state then return true else rest

unfoldable pub await_running : ℕ → Text → Text → ℕ → Action Bool
await_running pc container_name node_name zero = return false
await_running pc container_name node_name (suc i) =
    let rest = await_running pc container_name node_name i in
    restart_round pc container_name node_name rest

-- `RestartContainer`
unfoldable pub restart_container : ℕ → Text → Text → Action Bool
restart_container pc container_name node_name = do
  p ← get_container pc container_name node_name
  c ← lxc_at p
  perform (Call.reboot_container c.vmid)
  await_running pc container_name node_name 5

-- `IsContainerReady`; a nil `ContainerConfig` is a panic.
unfoldable pub is_container_ready : ℕ → Container → Action Bool
is_container_ready pc container = do
  p ← get_container pc container.spec.name container.spec.node_name
  c ← lxc_at p
  if c.vmid == 0
      then return false
      else on_option c.container_config crash (λ config. return (is_nil config.lock))
