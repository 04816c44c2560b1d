-- ===== src/Client/HarmlessConfig.antt =====
-- Configuring a guest deletes no guest: options, networks, disks and PCI devices.
use kubemox.Api.{PciDevice, VirtualMachine, VirtualMachineDisk, VirtualMachineNetwork}
use kubemox.Base.{Bool, List, Text, [], suc, zero, ℕ, ◌+◌, ◌∷◌}
use kubemox.Client.Create.{get_disks, get_networks, get_pci_devices}
use kubemox.Client.Disk.{
  apply_changes, apply_each, classify_items, configure_virtual_machine_disk, delete_each,
  delete_item, get_disk_configuration, parse_disk, parse_disk_configuration, update_disk_config,
}
use kubemox.Client.Harmless.{harmless_rules, is_delete, reboot_vm-Keeps, stop_vm-Keeps}
use kubemox.Client.Network.{
  add_networks, change_network, change_networks, configure_virtual_machine_network, parse_network,
  parse_network_configuration, remove_network, remove_networks,
}
use kubemox.Client.Options.{
  add_cloud_init_drive, add_disk_config, apply_additional_configuration, apply_option,
  apply_options, delete_virtual_machine_option, update_network_config,
}
use kubemox.Client.PciConfig.{
  apply_pci_changes, configure_virtual_machine, configure_virtual_machine_pci, delete_pcis,
  restart_for_pci, set_pcis, update_pci_config,
}
use kubemox.World.Keeps.{Keeps-bind, Keeps-return}
use kubemox.World.Monad.{Action, return, ◌>>=◌}
use kubemox.World.Trace.{Avoids}

delete_virtual_machine_option-Keeps :
    (pc : ℕ) (vm : VirtualMachine) (option : Text)
    → Avoids is_delete (delete_virtual_machine_option pc vm option)
unfolding delete_virtual_machine_option
delete_virtual_machine_option-Keeps pc vm option = search harmless_rules depth 14

update_network_config-Keeps :
    (pc : ℕ) (vm : VirtualMachine) (i : ℕ) (networks : List VirtualMachineNetwork)
    → Avoids is_delete (update_network_config pc vm i networks)
unfolding update_network_config
update_network_config-Keeps pc vm i networks = search harmless_rules depth 14

add_disk_config-Keeps :
    (pc : ℕ) (vm : VirtualMachine) (disk : VirtualMachineDisk)
    → Avoids is_delete (add_disk_config pc vm disk)
unfolding add_disk_config
add_disk_config-Keeps pc vm disk = search harmless_rules depth 14

pub add_cloud_init_drive-Keeps :
    (pc : ℕ) (vm_name node_name : Text)
    → Avoids is_delete (add_cloud_init_drive pc vm_name node_name)
unfolding add_cloud_init_drive
add_cloud_init_drive-Keeps pc vm_name node_name = search harmless_rules depth 14

apply_option-Keeps :
    (p : ℕ) (key value : Text) (rest : Action (Unit {0}))
    → Avoids is_delete rest
    → Avoids is_delete (apply_option p key value rest)
unfolding apply_option
apply_option-Keeps p key value rest k = search harmless_rules depth 14

apply_options-Keeps :
    (p : ℕ) (options : List (Text × Text)) → Avoids is_delete (apply_options p options)
unfolding apply_options
apply_options-Keeps p [] = search harmless_rules
apply_options-Keeps p ((key, value) ∷ options) =
    apply_option-Keeps p key value (apply_options p options) (apply_options-Keeps p options)

pub apply_additional_configuration-Keeps :
    (pc : ℕ) (vm_name node_name : Text) (options : List (Text × Text))
    → Avoids is_delete (apply_additional_configuration pc vm_name node_name options)
unfolding apply_additional_configuration
apply_additional_configuration-Keeps pc vm_name node_name options =
    search (harmless_rules, apply_options-Keeps, reboot_vm-Keeps) depth 14

parse_network-Keeps : (network : Text) → Avoids is_delete (parse_network network)
unfolding parse_network
parse_network-Keeps network = search harmless_rules depth 9

parse_network_configuration-Keeps :
    (networks : List (Text × Text)) → Avoids is_delete (parse_network_configuration networks)
unfolding parse_network_configuration
parse_network_configuration-Keeps [] = search harmless_rules
parse_network_configuration-Keeps ((_, network) ∷ networks) =
    Keeps-bind (parse_network network)
      (λ parsed. do others ← parse_network_configuration networks; return (parsed ∷ others))
      (parse_network-Keeps network)
      (λ parsed.
        Keeps-bind (parse_network_configuration networks) (λ others. return (parsed ∷ others))
          (parse_network_configuration-Keeps networks) (λ others. Keeps-return (parsed ∷ others)))

remove_network-Keeps :
    (pc : ℕ) (vm : VirtualMachine) (i : ℕ) (rest : Action (Unit {0}))
    → Avoids is_delete rest
    → Avoids is_delete (remove_network pc vm i rest)
unfolding remove_network
remove_network-Keeps pc vm i rest k =
    search (harmless_rules, delete_virtual_machine_option-Keeps) depth 9

remove_networks-Keeps :
    (pc : ℕ) (vm : VirtualMachine) (i n : ℕ) → Avoids is_delete (remove_networks pc vm i n)
unfolding remove_networks
remove_networks-Keeps pc vm i zero = search harmless_rules
remove_networks-Keeps pc vm i (suc n) =
    remove_network-Keeps pc vm i (remove_networks pc vm (i + 1) n)
      (remove_networks-Keeps pc vm (i + 1) n)

add_networks-Keeps :
    (pc : ℕ) (vm : VirtualMachine) (networks : List VirtualMachineNetwork) (i n : ℕ)
    → Avoids is_delete (add_networks pc vm networks i n)
unfolding add_networks
add_networks-Keeps pc vm networks i zero = search harmless_rules
add_networks-Keeps pc vm networks i (suc n) =
    Keeps-bind (update_network_config pc vm i networks) (λ _. add_networks pc vm networks (i + 1) n)
      (update_network_config-Keeps pc vm i networks)
      (λ _. add_networks-Keeps pc vm networks (i + 1) n)

change_network-Keeps :
    (pc : ℕ) (vm : VirtualMachine) (networks : List VirtualMachineNetwork) (i : ℕ)
    (actual : VirtualMachineNetwork) (rest : Action (Unit {0}))
    → Avoids is_delete rest
    → Avoids is_delete (change_network pc vm networks i actual rest)
unfolding change_network
change_network-Keeps pc vm networks i actual rest k =
    search (harmless_rules, update_network_config-Keeps) depth 9

change_networks-Keeps :
    (pc : ℕ) (vm : VirtualMachine) (networks : List VirtualMachineNetwork) (i : ℕ)
    (parsed : List VirtualMachineNetwork)
    → Avoids is_delete (change_networks pc vm networks i parsed)
unfolding change_networks
change_networks-Keeps pc vm networks i [] = search harmless_rules
change_networks-Keeps pc vm networks i (actual ∷ parsed) =
    change_network-Keeps pc vm networks i actual (change_networks pc vm networks (i + 1) parsed)
      (change_networks-Keeps pc vm networks (i + 1) parsed)

configure_network-Keeps :
    (pc : ℕ) (vm : VirtualMachine) → Avoids is_delete (configure_virtual_machine_network pc vm)
unfolding configure_virtual_machine_network get_networks
configure_network-Keeps pc vm =
    search
      (
        harmless_rules, parse_network_configuration-Keeps, remove_networks-Keeps,
        add_networks-Keeps, change_networks-Keeps,
      )
      depth 14

apply_each-Keeps :
    {I : Type 0} (change : I → Action (Unit {0})) (items : List I)
    → ((item : I) → Avoids is_delete (change item))
    → Avoids is_delete (apply_each change items)
unfolding apply_each
apply_each-Keeps change [] k = search harmless_rules
apply_each-Keeps change (item ∷ items) k =
    Keeps-bind (change item) (λ _. apply_each change items) (k item)
      (λ _. apply_each-Keeps change items k)

delete_item-Keeps :
    (pc : ℕ) (vm : VirtualMachine) (device_id : Text) (rest : Action (Unit {0}))
    → Avoids is_delete rest
    → Avoids is_delete (delete_item pc vm device_id rest)
unfolding delete_item
delete_item-Keeps pc vm device_id rest k =
    search (harmless_rules, delete_virtual_machine_option-Keeps) depth 9

delete_each-Keeps :
    {I : Type 0} (pc : ℕ) (vm : VirtualMachine) (get_device_id : I → Text) (items : List I)
    → Avoids is_delete (delete_each pc vm get_device_id items)
unfolding delete_each
delete_each-Keeps pc vm get_device_id [] = search harmless_rules
delete_each-Keeps pc vm get_device_id (item ∷ items) =
    delete_item-Keeps pc vm (get_device_id item) (delete_each pc vm get_device_id items)
      (delete_each-Keeps pc vm get_device_id items)

parse_disk-Keeps : (device disk : Text) → Avoids is_delete (parse_disk device disk)
unfolding parse_disk
parse_disk-Keeps device disk = search harmless_rules depth 9

parse_disk_configuration-Keeps :
    (disks : List (Text × Text)) → Avoids is_delete (parse_disk_configuration disks)
unfolding parse_disk_configuration
parse_disk_configuration-Keeps [] = search harmless_rules
parse_disk_configuration-Keeps ((device, disk) ∷ disks) =
    Keeps-bind (parse_disk device disk)
      (λ parsed. do others ← parse_disk_configuration disks; return (parsed ∷ others))
      (parse_disk-Keeps device disk)
      (λ parsed.
        Keeps-bind (parse_disk_configuration disks) (λ others. return (parsed ∷ others))
          (parse_disk_configuration-Keeps disks) (λ others. Keeps-return (parsed ∷ others)))

get_disk_configuration-Keeps :
    (pc : ℕ) (vm : VirtualMachine) → Avoids is_delete (get_disk_configuration pc vm)
unfolding get_disk_configuration
get_disk_configuration-Keeps pc vm = search harmless_rules

update_disk_config-Keeps :
    (pc : ℕ) (vm : VirtualMachine) (disk : VirtualMachineDisk)
    → Avoids is_delete (update_disk_config pc vm disk)
unfolding update_disk_config
update_disk_config-Keeps pc vm disk =
    search (harmless_rules, get_disk_configuration-Keeps, parse_disk_configuration-Keeps) depth 9

configure_disk-Keeps :
    (pc : ℕ) (vm : VirtualMachine) → Avoids is_delete (configure_virtual_machine_disk pc vm)
unfolding configure_virtual_machine_disk get_disks apply_changes classify_items
configure_disk-Keeps pc vm =
    search
      (
        harmless_rules, get_disk_configuration-Keeps, parse_disk_configuration-Keeps,
        apply_each-Keeps, delete_each-Keeps, add_disk_config-Keeps, update_disk_config-Keeps,
      )
      depth 12

update_pci_config-Keeps :
    (pc : ℕ) (vm : VirtualMachine) (index : Text) (pci : PciDevice)
    → Avoids is_delete (update_pci_config pc vm index pci)
unfolding update_pci_config
update_pci_config-Keeps pc vm index pci = search harmless_rules depth 9

set_pcis-Keeps :
    (pc : ℕ) (vm : VirtualMachine) (i : ℕ) (pcis : List PciDevice)
    (actual : List (Text × PciDevice)) (needs_reboot : Bool)
    → Avoids is_delete (set_pcis pc vm i pcis actual needs_reboot)
unfolding set_pcis
set_pcis-Keeps pc vm i [] actual needs_reboot = search harmless_rules
set_pcis-Keeps pc vm i (desired ∷ pcis) actual needs_reboot =
    search (harmless_rules, update_pci_config-Keeps, set_pcis-Keeps pc vm (i + 1) pcis) depth 9

delete_pcis-Keeps :
    (pc : ℕ) (vm : VirtualMachine) (pcis : List (Text × PciDevice)) (needs_reboot : Bool)
    → Avoids is_delete (delete_pcis pc vm pcis needs_reboot)
unfolding delete_pcis
delete_pcis-Keeps pc vm [] needs_reboot = search harmless_rules
delete_pcis-Keeps pc vm ((index, _) ∷ pcis) needs_reboot =
    search (harmless_rules, delete_virtual_machine_option-Keeps, delete_pcis-Keeps pc vm pcis) depth
      12

restart_for_pci-Keeps : (pc : ℕ) (vm : VirtualMachine) → Avoids is_delete (restart_for_pci pc vm)
unfolding restart_for_pci
restart_for_pci-Keeps pc vm = search (harmless_rules, stop_vm-Keeps) depth 12

configure_pci-Keeps :
    (pc : ℕ) (vm : VirtualMachine) → Avoids is_delete (configure_virtual_machine_pci pc vm)
unfolding configure_virtual_machine_pci get_pci_devices apply_pci_changes
configure_pci-Keeps pc vm =
    search (harmless_rules, set_pcis-Keeps, delete_pcis-Keeps, restart_for_pci-Keeps) depth 14

pub configure_virtual_machine-Keeps :
    (pc : ℕ) (vm : VirtualMachine) → Avoids is_delete (configure_virtual_machine pc vm)
unfolding configure_virtual_machine
configure_virtual_machine-Keeps pc vm =
    search (harmless_rules, configure_network-Keeps, configure_disk-Keeps, configure_pci-Keeps)
