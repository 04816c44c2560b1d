-- ===== src/Client/PciConfig.antt =====
-- The PCI devices of a guest: `configureVirtualMachinePCI`, `ApplyPCIChanges`, `updatePCIConfig` and
-- `ConfigureVirtualMachine` of pkg/proxmox/virtualmachine.go.
use kubemox.Api.{PciDevice, VirtualMachine}
use kubemox.Base.{
  Bool, List, Option, Text, [], bytes, false, if◌then◌else◌, itoa, length, none, not, some, text_eq,
  true, ℕ, ◌&&◌, ◌++◌, ◌+◌, ◌==◌, ◌∷◌,
}
use kubemox.Client.Create.{get_pci_devices}
use kubemox.Client.Disk.{configure_virtual_machine_disk}
use kubemox.Client.Lookup.{get_virtual_machine, guest_at}
use kubemox.Client.Network.{configure_virtual_machine_network}
use kubemox.Client.Options.{delete_virtual_machine_option}
use kubemox.Client.Pci.{build_pci_options, parse_single_pci_configuration}
use kubemox.Client.Power.{on_guest, stop_vm}
use kubemox.World.Call.{Call}
use kubemox.World.Error.{task_error}
use kubemox.World.Monad.{
  Action, fail, finish_task, on_option, return, return_error, wait_for, ◌>>=◌, ◌>>◌,
}

-- The devices that a guest has, by key; one whose text does not parse is logged and skipped.
unfoldable pub parse_pci_configurations : List (Text × Text) → List (Text × PciDevice)
parse_pci_configurations [] = []
parse_pci_configurations ((key, pci_string) ∷ pcis) =
    let rest = parse_pci_configurations pcis in
    elim (parse_single_pci_configuration pci_string) [ none ↦ rest | some pci ↦ (key, pci) ∷ rest ]

-- `actualPCIs[indexStr]` and `delete(actualPCIs, indexStr)`
unfoldable pub find_pci : Text → List (Text × PciDevice) → Option PciDevice
find_pci key [] = none
find_pci key ((j, pci) ∷ pcis) = if text_eq j key then some pci else find_pci key pcis

unfoldable pub remove_pci : Text → List (Text × PciDevice) → List (Text × PciDevice)
remove_pci key [] = []
remove_pci key ((j, pci) ∷ pcis) =
    let rest = remove_pci key pcis in if text_eq j key then rest else (j, pci) ∷ rest

-- `updatePCIConfig`
unfoldable pub update_pci_config : ℕ → VirtualMachine → Text → PciDevice → Action (Unit {0})
update_pci_config pc vm index pci = do
  p ← get_virtual_machine pc vm.metadata.name vm.spec.node_name
  on_guest p (λ vmid. Call.config vmid index (build_pci_options pci))
  end ← wait_for 5 3
  finish_task end (return tt)

abbrev pub bool_same : Bool → Bool → Bool
bool_same true b = b
bool_same false b = not b

abbrev pub same_pci : PciDevice → PciDevice → Bool
same_pci a b =
    text_eq a.type b.type
    && (text_eq a.device_id b.device_id
        && (bool_same a.primary_gpu b.primary_gpu && bool_same a.pcie b.pcie))

-- The first loop of `ApplyPCIChanges`, from index `i` on: the devices left over, and whether a
-- reboot is needed.
unfoldable pub set_pcis :
    ℕ
    → VirtualMachine
    → ℕ
    → List PciDevice
    → List (Text × PciDevice)
    → Bool
    → Action (Bool × List (Text × PciDevice))
set_pcis pc vm i [] actual needs_reboot = return (needs_reboot, actual)
set_pcis pc vm i (desired ∷ pcis) actual needs_reboot =
    let index = bytes "hostpci" ++ itoa i in
    let present = set_pcis pc vm (i + 1) pcis (remove_pci index actual) needs_reboot in
    let changed = set_pcis pc vm (i + 1) pcis (remove_pci index actual) true in
    let added = set_pcis pc vm (i + 1) pcis actual true in
    on_option (find_pci index actual) (update_pci_config pc vm index desired >> added) (λ found.
      if same_pci found desired
      then present
      else (update_pci_config pc vm index desired >> changed))

-- The second loop of `ApplyPCIChanges`.
unfoldable pub delete_pcis : ℕ → VirtualMachine → List (Text × PciDevice) → Bool → Action Bool
delete_pcis pc vm [] needs_reboot = return needs_reboot
delete_pcis pc vm ((index, _) ∷ pcis) needs_reboot =
    let rest = delete_pcis pc vm pcis true in
    do
      failed ← delete_virtual_machine_option pc vm index
      on_option failed
          (do
            end ← wait_for 5 3
            if not end.status
                then fail (task_error end.exit_status)
                else if not end.completed
                then (return_error end.error >> return false)
                else rest)
          fail

-- `ApplyPCIChanges`
unfoldable pub apply_pci_changes :
    ℕ → VirtualMachine → List PciDevice → List (Text × PciDevice) → Action Bool
apply_pci_changes pc vm desired actual = do
  (needs_reboot, left) ← set_pcis pc vm 0 desired actual false
  delete_pcis pc vm left needs_reboot

-- The stop and the start behind a change of the devices.
unfoldable pub restart_for_pci : ℕ → VirtualMachine → Action (Unit {0})
restart_for_pci pc vm = do
  stop_vm pc vm.metadata.name vm.spec.node_name
  p ← get_virtual_machine pc vm.metadata.name vm.spec.node_name
  on_guest p Call.start
  end ← wait_for 5 3
  return_error end.error
  if not end.status then fail (task_error end.exit_status) else return tt

-- `configureVirtualMachinePCI`
unfoldable pub configure_virtual_machine_pci : ℕ → VirtualMachine → Action (Unit {0})
configure_virtual_machine_pci pc vm = do
  desired ← get_pci_devices vm
  p ← get_virtual_machine pc vm.metadata.name vm.spec.node_name
  guest ← guest_at p
  if length desired == 0 then return tt else (do
    needs_reboot ←
        apply_pci_changes pc vm desired (parse_pci_configurations guest.vm_config.host_pcis)
    if needs_reboot then restart_for_pci pc vm else return tt)

-- `ConfigureVirtualMachine`
unfoldable pub configure_virtual_machine : ℕ → VirtualMachine → Action (Unit {0})
configure_virtual_machine pc vm =
    configure_virtual_machine_network pc vm
    >> configure_virtual_machine_disk pc vm
    >> configure_virtual_machine_pci pc vm
