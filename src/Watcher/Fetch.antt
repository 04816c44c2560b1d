-- ===== src/Watcher/Fetch.antt =====
-- The fetchers of pkg/proxmox/fetcher.go for virtual machines, containers and templates, the readiness
-- check that they share, and the extractors. A key of another type than ProxmoxResourceKey and a state of
-- another type than the fetched one are not modelled: the watcher hands back what it was given.
use kubemox.Api.{
  Container, ObjectMeta, VirtualMachine, VirtualMachineDisk, VirtualMachineNetwork,
  VirtualMachineTemplate,
}
use kubemox.Base.{
  Bool, List, Option, Text, bytes, false, if◌then◌else◌, none, some, text_eq, true, ℕ, ◌++◌, ◌/◌,
  ◌||◌,
}
use kubemox.Client.Cache.{get_node, set_cached_vm}
use kubemox.Client.Container.{lxc_at}
use kubemox.Client.ContainerPower.{is_container_ready}
use kubemox.Client.Create.{get_cores, get_disks, get_memory, get_networks, get_sockets}
use kubemox.Client.Disk.{parse_disk_configuration, without_cdrom}
use kubemox.Client.FromRef.{new_client_from_ref}
use kubemox.Client.Lookup.{
  get_virtual_machine, get_vmid, guest_at, is_virtual_machine_ready, virtual_machine,
}
use kubemox.Client.Network.{parse_network_configuration}
use kubemox.Client.Power.{running_state}
use kubemox.Controller.ContainerDeletion.{container_kind}
use kubemox.Controller.Mode.{ensure_exists, get_reconcile_mode, vm_kind, watch_only}
use kubemox.Controller.TemplateDeletion.{template_kind}
use kubemox.Watcher.Sort.{sort_disks}
use kubemox.World.Call.{Call}
use kubemox.World.Env.{VmConfig}
use kubemox.World.Error.{message, wrap}
use kubemox.World.Monad.{Action, fail, gets, handle, perform, return, ◌>>=◌, ◌>>◌}

-- `VirtualMachineComparison` of pkg/proxmox/virtualmachine.go; a nil list of networks is `none`, and a nil
-- list of disks is an empty one.
pub record VirtualMachineComparison : Type 0 where
  pub sockets : ℕ
  pub cores : ℕ
  pub memory : ℕ
  pub networks : Option (List VirtualMachineNetwork)
  pub disks : List VirtualMachineDisk

-- `ContainerDesiredState`; a nil pointer is `none`.
pub record ContainerDesiredState : Type 0 where
  pub running : Option Bool
  pub cores : ℕ
  pub memory : ℕ

-- `VMTemplateDesiredState`
pub record VmTemplateDesiredState : Type 0 where
  pub cores : ℕ
  pub sockets : ℕ
  pub memory : ℕ

-- `ProxmoxResourceKey`
pub record ProxmoxResourceKey : Type 0 where
  pub name : Text
  pub node_name : Text
  pub connection_ref : Option Text

-- `derefInt` of pkg/proxmox/generics.go
unfoldable pub deref_int : Option ℕ → ℕ
deref_int none = 0
deref_int (some n) = n

-- `checkResourceReady` on an object that is read by `get`. Every error is logged and means not ready.
unfoldable pub check_resource_ready :
    {A : Type 0} → Action A → (A → Option Text) → (ℕ → A → Action Bool) → Action Bool
check_resource_ready get connection_ref_of ready =
    handle get (λ _. return false)
      λ resource.
        handle (new_client_from_ref (connection_ref_of resource)) (λ _. return false)
          λ pc. handle (ready pc resource) (λ _. return false) return

-- `Client.Get` of a virtual machine, a container and a template.
abbrev pub read_vm : Text → Text → Action VirtualMachine
read_vm namespace name = do
  history ← gets (λ w. w.trace)
  perform (Call.kube_get vm_kind namespace name)
  gets (λ w. w.env.stored_vm history namespace name)

abbrev pub read_container : Text → Text → Action Container
read_container namespace name = do
  history ← gets (λ w. w.trace)
  perform (Call.kube_get container_kind namespace name)
  gets (λ w. w.env.stored_container history namespace name)

abbrev pub read_template : Text → Text → Action VirtualMachineTemplate
read_template namespace name = do
  history ← gets (λ w. w.trace)
  perform (Call.kube_get template_kind namespace name)
  gets (λ w. w.env.stored_template history namespace name)

-- The test on the mode with which every `GetDesiredState` begins; a nil state is `none`.
unfoldable pub unless_unwatched : {A : Type 0} → ObjectMeta → Action A → Action (Option A)
unless_unwatched metadata desired =
    let mode = get_reconcile_mode metadata in
    if text_eq mode watch_only || text_eq mode ensure_exists
    then return none
    else (do state ← desired; return (some state))

-- The comparison that `GetDesiredState` makes of a virtual machine.
unfoldable pub desired_comparison : VirtualMachine → Action VirtualMachineComparison
desired_comparison vm = do
  cores ← get_cores vm
  sockets ← get_sockets vm
  memory ← get_memory vm
  networks ← get_networks vm
  disks ← get_disks vm
  return (record {
    sockets = sockets;
    cores = cores;
    memory = memory;
    networks = networks;
    disks = sort_disks disks;
  })

-- `GetDesiredState` of a virtual machine
unfoldable pub get_desired_vm : Text → Text → Action (Option VirtualMachineComparison)
get_desired_vm namespace name = do
  vm ← read_vm namespace name
  unless_unwatched vm.metadata (desired_comparison vm)

-- `NewProxmoxClientFromRef` with the error wrapped.
abbrev pub client_of : ProxmoxResourceKey → Action ℕ
client_of key =
    handle (new_client_from_ref key.connection_ref)
      (λ e. fail (wrap (bytes "getting Proxmox client: " ++ message e) e)) return

-- `FetchExternalResource` of a virtual machine
unfoldable pub fetch_external_vm : ProxmoxResourceKey → Action ℕ
fetch_external_vm key = do
  pc ← client_of key
  node ← get_node pc key.node_name
  vmid ← get_vmid pc key.name key.node_name
  p ← virtual_machine node vmid
  set_cached_vm pc key.node_name vmid p
  return p

-- The comparison that `TransformExternalState` makes of a guest's configuration.
unfoldable pub external_comparison : VmConfig → Action VirtualMachineComparison
external_comparison config = do
  networks ← parse_network_configuration config.nets
  disks ← parse_disk_configuration (without_cdrom config.disks)
  return (record {
    sockets = deref_int config.sockets;
    cores = deref_int config.cores;
    memory = config.memory;
    networks = some networks;
    disks = sort_disks disks;
  })

-- `TransformExternalState` of a virtual machine
unfoldable pub transform_external_vm : ℕ → Action VirtualMachineComparison
transform_external_vm p = do guest ← guest_at p; external_comparison guest.vm_config

-- `IsResourceReadyToWatch` of a virtual machine
unfoldable pub is_vm_ready_to_watch : Text → Text → Action Bool
is_vm_ready_to_watch namespace name =
    check_resource_ready (read_vm namespace name) (λ vm. vm.spec.connection_ref)
      (λ pc vm. is_virtual_machine_ready pc vm.spec.name vm.spec.node_name)

-- `GetDesiredState`, `TransformExternalState` and `IsResourceReadyToWatch` of a container
unfoldable pub get_desired_container : Text → Text → Action (Option ContainerDesiredState)
get_desired_container namespace name = do
  container ← read_container namespace name
  unless_unwatched container.metadata (
      return (record {
        running = if container.spec.enable_auto_start then some true else none;
        cores = container.spec.template.cores;
        memory = container.spec.template.memory;
      }))

unfoldable pub transform_external_container : ℕ → Action ContainerDesiredState
transform_external_container p = do
  c ← lxc_at p
  return (record {
    running = some (text_eq c.status running_state);
    cores = c.cpus;
    memory = c.max_mem / 1024 / 1024;
  })

unfoldable pub is_container_ready_to_watch : Text → Text → Action Bool
is_container_ready_to_watch namespace name =
    check_resource_ready (read_container namespace name)
      (λ container. container.spec.connection_ref) is_container_ready

-- `GetDesiredState`, `FetchExternalResource`, `TransformExternalState` and `IsResourceReadyToWatch` of a
-- template
unfoldable pub get_desired_template : Text → Text → Action (Option VmTemplateDesiredState)
get_desired_template namespace name = do
  t ← read_template namespace name
  unless_unwatched t.metadata (
      return (record {
        cores = t.spec.virtual_machine_config.cores;
        sockets = t.spec.virtual_machine_config.sockets;
        memory = t.spec.virtual_machine_config.memory;
      }))

unfoldable pub fetch_external_template : ProxmoxResourceKey → Action ℕ
fetch_external_template key = do pc ← client_of key; get_virtual_machine pc key.name key.node_name

unfoldable pub transform_external_template : ℕ → Action VmTemplateDesiredState
transform_external_template p = do
  guest ← guest_at p
  return (record {
    cores = deref_int guest.vm_config.cores;
    sockets = deref_int guest.vm_config.sockets;
    memory = guest.vm_config.memory;
  })

unfoldable pub is_template_ready_to_watch : Text → Text → Action Bool
is_template_ready_to_watch namespace name =
    check_resource_ready (read_template namespace name) (λ t. t.spec.connection_ref)
      (λ pc t. is_virtual_machine_ready pc t.spec.name t.spec.node_name)

-- `VMConfigExtractor`, `ContainerConfigExtractor` and `VMTemplateConfigExtractor`
unfoldable pub vm_config_extractor : VirtualMachine → ProxmoxResourceKey
vm_config_extractor vm = record {
  name = vm.spec.name;
  node_name = vm.spec.node_name;
  connection_ref = vm.spec.connection_ref;
}

unfoldable pub container_config_extractor : Container → ProxmoxResourceKey
container_config_extractor container = record {
  name = container.spec.name;
  node_name = container.spec.node_name;
  connection_ref = container.spec.connection_ref;
}

unfoldable pub vm_template_config_extractor : VirtualMachineTemplate → ProxmoxResourceKey
vm_template_config_extractor t = record {
  name = t.spec.name;
  node_name = t.spec.node_name;
  connection_ref = t.spec.connection_ref;
}
