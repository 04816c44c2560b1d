-- ===== src/Client/Create.antt =====
-- Creating a guest: `CheckVMType`, the getters that read the template or the specification,
-- `CreateVMFromTemplate` and `CreateVMFromScratch` of pkg/proxmox/virtualmachine.go.
-- The semaphore and the mutex only delay a call, and are not modelled.
use kubemox.Api.{
  NewVmSpec, PciDevice, VirtualMachine, VirtualMachineDisk, VirtualMachineNetwork,
  VirtualMachineSpecTemplate, is_full_clone,
}
use kubemox.Base.{
  Bool, List, Option, Text, [], bytes, false, if◌then◌else◌, itoa, none, some, true, ℕ, ◌&&◌, ◌++◌,
  ◌+◌, ◌∷◌,
}
use kubemox.Client.Cache.{get_node, set_cached_vmid}
use kubemox.Client.Lookup.{get_virtual_machine, on_node}
use kubemox.Client.Power.{on_guest}
use kubemox.World.Call.{Call, OptionValue, number, text}
use kubemox.World.Error.{message, not_found}
use kubemox.World.Monad.{
  Action, crash, fail, finish_task, gets, handle, on_option, perform, return, wait_for, ◌>>=◌, ◌>>◌,
}

pub data VmType : Type 0 where
  template scratch faulty undefined : VmType

abbrev is_set : {A : Type 0} → Option A → Bool
is_set none = false
is_set (some _) = true

-- `CheckVMType`; the cases are tried in the order of the source.
unfoldable pub check_vm_type : VirtualMachine → VmType
check_vm_type vm =
    if is_set vm.spec.template
    then VmType.template
    else if is_set vm.spec.vm_spec
    then VmType.scratch
    else if is_set vm.spec.template && is_set vm.spec.vm_spec
    then VmType.faulty
    else VmType.undefined

abbrev pub is_template : VmType → Bool
is_template VmType.template = true
is_template _ = false

-- A field of the template where the type is `template`, else of the specification.
abbrev pub from_spec :
    {A : Type 0} → VirtualMachine → (VirtualMachineSpecTemplate → A) → (NewVmSpec → A) → Action A
from_spec vm f g =
    if is_template (check_vm_type vm)
    then on_option vm.spec.template crash (λ t. return (f t))
    else on_option vm.spec.vm_spec crash (λ s. return (g s))

-- `GetCores`, `GetMemory`, `getSockets`, `getDisks`, `getNetworks`, `getPciDevices`
unfoldable pub get_cores : VirtualMachine → Action ℕ
get_cores vm = from_spec vm (λ t. t.cores) (λ s. s.cores)

unfoldable pub get_memory : VirtualMachine → Action ℕ
get_memory vm = from_spec vm (λ t. t.memory) (λ s. s.memory)

unfoldable pub get_sockets : VirtualMachine → Action ℕ
get_sockets vm = from_spec vm (λ t. t.socket) (λ s. s.socket)

unfoldable pub get_disks : VirtualMachine → Action (List VirtualMachineDisk)
get_disks vm = from_spec vm (λ t. t.disk) (λ s. s.disk)

unfoldable pub get_networks : VirtualMachine → Action (Option (List VirtualMachineNetwork))
get_networks vm = from_spec vm (λ t. t.network) (λ s. s.network)

unfoldable pub get_pci_devices : VirtualMachine → Action (List PciDevice)
get_pci_devices vm = from_spec vm (λ t. t.pci_devices) (λ s. s.pci_devices)

-- The log of the clone's task, where it is switched on.
watch_task_log : Action (Unit {0})
watch_task_log = do
  enabled ← gets (λ w. w.env.enable_task_logs)
  if enabled then perform Call.watch_task else return tt

-- `CreateVMFromTemplate`
unfoldable pub create_vm_from_template : ℕ → VirtualMachine → Action (Unit {0})
unfolding watch_task_log
create_vm_from_template pc vm = on_option vm.spec.template crash λ template. do
  let node_name = vm.spec.node_name
  handle (get_virtual_machine pc template.name node_name)
      (λ e. fail (
        not_found
          (bytes "Template VirtualMachine " ++ template.name ++ bytes " not found: " ++ message e)))
      (λ template_vm. do
        history ← gets (λ w. w.trace)
        on_guest template_vm
            (λ vmid. Call.clone vmid vm.metadata.name node_name (is_full_clone vm.spec.clone_mode))
        new_id ← gets (λ w. w.env.cloned_vmid history)
        watch_task_log
        end ← wait_for 15 10
        finish_task end (set_cached_vmid pc node_name vm.metadata.name new_id))

-- The options of the disks, and those of the networks from an index on.
abbrev pub disk_options : List VirtualMachineDisk → List (Text × OptionValue)
disk_options [] = []
disk_options (d ∷ ds) = (d.device, text (d.storage ++ bytes ":" ++ itoa d.size)) ∷ disk_options ds

abbrev pub network_options : ℕ → List VirtualMachineNetwork → List (Text × OptionValue)
network_options i [] = []
network_options i (n ∷ ns) =
    (bytes "net" ++ itoa i, text (n.model ++ bytes ",bridge=" ++ n.bridge))
    ∷ network_options (i + 1) ns

abbrev pub or_nothing : {A : Type 0} → Option (List A) → List A
or_nothing none = []
or_nothing (some xs) = xs

-- `VMOptions` of `CreateVMFromScratch`
unfoldable pub vm_options : Text → NewVmSpec → List (Text × OptionValue)
vm_options vm_name spec =
    ((bytes "sockets", number spec.socket)
      ∷ (bytes "cores", number spec.cores)
      ∷ (bytes "memory", number spec.memory)
      ∷ (spec.os_image_name, text (spec.os_image_value ++ bytes ",media=cdrom"))
      ∷ (bytes "name", text vm_name)
      ∷ [])
    ++ disk_options spec.disk
    ++ network_options 0 (or_nothing spec.network)

-- `getNextVMID`
unfoldable pub get_next_vmid : Action ℕ
get_next_vmid = do
  history ← gets (λ w. w.trace)
  perform Call.next_id
  gets (λ w. w.env.free_vmid history)

-- `CreateVMFromScratch`
unfoldable pub create_vm_from_scratch : ℕ → VirtualMachine → Action (Unit {0})
create_vm_from_scratch pc vm = do
  let node_name = vm.spec.node_name
  node ← get_node pc node_name
  on_option vm.spec.vm_spec crash λ spec. do
    vmid ← get_next_vmid
    on_node node (λ n. perform (Call.new_vm n vmid (vm_options vm.spec.name spec)))
    end ← wait_for 10 10
    finish_task end (set_cached_vmid pc node_name vm.spec.name vmid)
