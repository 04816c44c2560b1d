-- ===== src/Client/Lookup.antt =====
-- Finding guests: `getVMID`, `CheckVM`, `VMIDsByName`, `ContainerIDsByName`, `getVirtualMachine` and
-- `IsVirtualMachineReady` of pkg/proxmox/virtualmachine.go.
use kubemox.Base.{
  Bool, List, Option, Text, [], equal_fold, false, if◌then◌else◌, none, some, text_eq, true, ℕ, ◌+◌,
  ◌==◌, ◌∷◌,
}
use kubemox.Client.Cache.{cached_vmid, get_cached_vm, get_node, set_cached_vm, set_cached_vmid}
use kubemox.World.Call.{Call}
use kubemox.World.Env.{Guest, Listing}
use kubemox.World.Monad.{Action, crash, gets, modify, on_option, perform, return, ◌>>=◌, ◌>>◌}

-- A method of a node; the node is a pointer that may be nil.
abbrev pub on_node : {A : Type 0} → Option Text → (Text → Action A) → Action A
on_node node f = on_option node crash f

-- `node.VirtualMachines(ctx)`
unfoldable pub virtual_machines : Option Text → Action (List Listing)
virtual_machines node = on_node node λ n. do
  history ← gets (λ w. w.trace)
  perform (Call.list_vms n)
  gets (λ w. w.env.vms_on history n)

-- `node.Containers(ctx)`
unfoldable pub containers : Option Text → Action (List Listing)
containers node = on_node node λ n. do
  history ← gets (λ w. w.trace)
  perform (Call.list_containers n)
  gets (λ w. w.env.containers_on history n)

-- `node.VirtualMachine(ctx, vmID)`: a pointer to a new object.
unfoldable pub virtual_machine : Option Text → ℕ → Action ℕ
virtual_machine node vmid = on_node node λ n. do
  history ← gets (λ w. w.trace)
  perform (Call.get_vm n vmid)
  p ← gets (λ w. w.next_guest)
  modify (λ w. record w {
    guests = λ q. if q == p then w.env.fetched history n vmid else w.guests q;
    next_guest = p + 1;
  })
  return p

-- The first entry whose name is equal but for case, as the loops of `getVMID` and `CheckVM` find it.
unfoldable pub find_vm : Text → List Listing → Option Listing
find_vm vm_name [] = none
find_vm vm_name (vm ∷ vms) = if equal_fold vm.name vm_name then some vm else find_vm vm_name vms

-- `getVMID`; 0 with a nil error where no guest has the name.
unfoldable pub get_vmid : ℕ → Text → Text → Action ℕ
get_vmid pc vm_name node_name = do
  node ← get_node pc node_name
  cached ← gets (cached_vmid pc node_name vm_name)
  on_option cached
      (do
        vm_list ← virtual_machines node
        on_option (find_vm vm_name vm_list) (return 0)
            λ vm. do set_cached_vmid pc node_name vm_name vm.vmid; return vm.vmid)
      return

-- `CheckVM`, which caches the ID under the name that Proxmox reports.
unfoldable pub check_vm : ℕ → Text → Text → Action Bool
check_vm pc vm_name node_name = do
  node ← get_node pc node_name
  cached ← gets (cached_vmid pc node_name vm_name)
  on_option cached
      (do
        vm_list ← virtual_machines node
        on_option (find_vm vm_name vm_list) (return false)
            λ vm. do set_cached_vmid pc node_name vm.name vm.vmid; return true)
      (λ _. return true)

-- The IDs of the entries that a test accepts, in order.
abbrev pub ids_where : (Text → Bool) → List Listing → List ℕ
ids_where test [] = []
ids_where test (vm ∷ vms) =
    if test vm.name then vm.vmid ∷ ids_where test vms else ids_where test vms

-- `VMIDsByName`
unfoldable pub vmids_by_name : ℕ → Text → Text → Action (List ℕ)
vmids_by_name pc vm_name node_name = do
  node ← get_node pc node_name
  vm_list ← virtual_machines node
  return (ids_where (λ name. equal_fold name vm_name) vm_list)

-- `ContainerIDsByName`
unfoldable pub container_ids_by_name : ℕ → Text → Text → Action (List ℕ)
container_ids_by_name pc container_name node_name = do
  node ← get_node pc node_name
  cts ← containers node
  return (ids_where (λ name. text_eq name container_name) cts)

-- `getVirtualMachine`: a pointer to a guest, cached or fetched.
unfoldable pub get_virtual_machine : ℕ → Text → Text → Action ℕ
get_virtual_machine pc vm_name node_name = do
  node ← get_node pc node_name
  vmid ← get_vmid pc vm_name node_name
  cached ← get_cached_vm pc node_name vmid
  on_option cached
      (do vm ← virtual_machine node vmid; set_cached_vm pc node_name vmid vm; return vm) return

-- The guest behind a pointer.
abbrev pub guest_at : ℕ → Action Guest
guest_at p = gets (λ w. w.guests p)

-- `IsVirtualMachineReady`, once the name and the node are read off the resource.
unfoldable pub is_virtual_machine_ready : ℕ → Text → Text → Action Bool
is_virtual_machine_ready pc vm_name node_name = do
  vmid ← get_vmid pc vm_name node_name
  if vmid == 0 then return false else do
    node ← get_node pc node_name
    vm ← virtual_machine node vmid
    guest ← guest_at vm
    return (text_eq guest.lock [])
