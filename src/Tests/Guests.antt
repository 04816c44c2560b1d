-- ===== src/Tests/Guests.antt =====
-- The theorems on the client of a cluster, at concrete guests.
use kubemox.Api.{PciDevice, VirtualMachineDisk, VirtualMachineNetwork}
use kubemox.Base.{
  In, List, Text, [], arith, bytes, equal_fold, false, inl, none, refl, some, suc, text_eq, true, ℕ,
  ◌<◌, ◌↔◌, ◌∷◌, ◌≡◌, ◌≤◌, ◌⊎◌,
}
use kubemox.Client.Cache.{
  cached_vmid, containers_of, delete_cached_container, delete_cached_container_object, entry_of,
  forget_vm, get_cached_container, get_cached_container_id, get_cached_vm, get_node, read_map,
  set_cached_container, set_cached_container_id, set_cached_vm, set_cached_vmid,
}
use kubemox.Client.Caching.{get_vmid-again}
use kubemox.Client.Classify.{Differs, NoKey, classify_items_lem}
use kubemox.Client.Container.{
  delete_container, delete_if_named, destroy_container, fetch_container, find_container,
  get_container, get_container_id, ping_container, refresh_container, stop_and_destroy,
}
use kubemox.Client.ContainerDeletion.{delete_container-confirmed, deleted_last}
use kubemox.Client.Disk.{classify_items, same_disk}
use kubemox.Client.Forgets.{delete_vm-forgets, given_up}
use kubemox.Client.Lookup.{
  containers, find_vm, get_virtual_machine, get_vmid, virtual_machine, virtual_machines,
}
use kubemox.Client.Network.{change_networks}
use kubemox.Client.NetworkBounds.{Stops, change_networks-too_many}
use kubemox.Client.Pci.{build_pci_options, parse_single_pci_configuration}
use kubemox.Client.PciRoundTrip.{parse-build_pci_options}
use kubemox.Client.Power.{delete_vm, ping, stopped_in_time}
use kubemox.Client.Retry.{failed, goes_on, is_retryable_method, round_trip, round_trip_lem}
use kubemox.Scenario.{calm, elder}
use kubemox.World.Env.{Listing}
use kubemox.World.Monad.{
  World, after, fail, gets, handle, modify, ok, on_option, perform, return, wait_for, ◌>>=◌,
}

abbrev looked_up : World
looked_up = after (get_vmid 0 (bytes "web") (bytes "pve") calm)

get_vmid-again_example : get_vmid 0 (bytes "web") (bytes "pve") looked_up ≡ ok 100 looked_up
unfolding get_vmid get_node virtual_machines find_vm equal_fold set_cached_vmid cached_vmid perform
    gets modify return on_option ◌>>=◌ text_eq
get_vmid-again_example =
    get_vmid-again 0 (bytes "web") (bytes "pve") calm looked_up 100 refl (ground arith)

abbrev deleted : World
deleted = after (delete_vm 0 (bytes "web") (bytes "pve") calm)

delete_vm-forgets_example :
    (cached_vmid 0 (bytes "pve") (bytes "web") deleted ≡ none)
    ⊎ (given_up deleted.env.task_end deleted.trace ≡ true)
unfolding delete_vm get_virtual_machine get_vmid get_node virtual_machines virtual_machine find_vm
    equal_fold set_cached_vmid set_cached_vm get_cached_vm cached_vmid ping stopped_in_time wait_for
    forget_vm text_eq handle perform gets modify return fail on_option ◌>>=◌
delete_vm-forgets_example = delete_vm-forgets 0 (bytes "web") (bytes "pve") calm deleted refl

abbrev disk : Text → ℕ → VirtualMachineDisk
disk device size = record { storage = bytes "local"; size = size; device = device }

abbrev wanted : List VirtualMachineDisk
wanted = disk (bytes "scsi0") 20 ∷ disk (bytes "scsi1") 10 ∷ []

abbrev found : List VirtualMachineDisk
found = disk (bytes "scsi0") 10 ∷ disk (bytes "scsi2") 10 ∷ []

abbrev device_of : VirtualMachineDisk → Text
device_of d = d.device

classify_items_lem_example :
    (In (disk (bytes "scsi2") 10) (classify_items same_disk device_of wanted found).0
      ↔ (In (disk (bytes "scsi2") 10) wanted × NoKey device_of (bytes "scsi2") found))
    × (In (disk (bytes "scsi2") 10) (classify_items same_disk device_of wanted found).1 ↔ (
        In (disk (bytes "scsi2") 10) wanted
        × Differs same_disk device_of (disk (bytes "scsi2") 10) found))
    × (In (disk (bytes "scsi2") 10) (classify_items same_disk device_of wanted found).2
        ↔ (In (disk (bytes "scsi2") 10) found × NoKey device_of (bytes "scsi2") wanted))
classify_items_lem_example =
    classify_items_lem same_disk device_of (disk (bytes "scsi2") 10) wanted found

abbrev card : PciDevice
card = record { type = bytes "mapped"; device_id = bytes "gpu"; primary_gpu = true; pcie = false }

parse-build_pci_options_example :
    parse_single_pci_configuration (build_pci_options card) ≡ some card
parse-build_pci_options_example =
    parse-build_pci_options card (record { known_type = inl refl; no_comma = omega arith })

round_trip_lem_example :
    (0 < (round_trip 2 (bytes "GET") (λ _. failed (bytes "EOF"))).1)
    × ((round_trip 2 (bytes "GET") (λ _. failed (bytes "EOF"))).1 ≤ 3)
    × ((round_trip 2 (bytes "GET") (λ _. failed (bytes "EOF"))).0 ≡ failed (bytes "EOF"))
    × ((j : ℕ)
        → suc j < (round_trip 2 (bytes "GET") (λ _. failed (bytes "EOF"))).1
        → goes_on (failed (bytes "EOF")) ≡ true)
    × (is_retryable_method (bytes "GET") ≡ true
        → goes_on (round_trip 2 (bytes "GET") (λ _. failed (bytes "EOF"))).0 ≡ true
        → (round_trip 2 (bytes "GET") (λ _. failed (bytes "EOF"))).1 ≡ 3)
    × (is_retryable_method (bytes "GET") ≡ false
        → (round_trip 2 (bytes "GET") (λ _. failed (bytes "EOF"))).1 ≡ 1)
round_trip_lem_example = round_trip_lem 2 (bytes "GET") (λ _. failed (bytes "EOF"))

abbrev bridge : Text → VirtualMachineNetwork
bridge name = record { model = bytes "virtio"; bridge = name }

change_networks-too_many_example : Stops 0 elder (bridge (bytes "vmbr0") ∷ []) (
    change_networks 0 elder
      (bridge (bytes "vmbr0") ∷ [])
      0
      (bridge (bytes "vmbr0") ∷ bridge (bytes "vmbr1") ∷ [])
      calm)
change_networks-too_many_example =
    change_networks-too_many 0 elder (bridge (bytes "vmbr0") ∷ []) 0
      (bridge (bytes "vmbr0") ∷ bridge (bytes "vmbr1") ∷ []) (omega arith) (omega arith)
      (omega arith) calm

abbrev web_entry : List Listing
web_entry = record { name = bytes "web"; vmid = 200 } ∷ []

abbrev emptied : World
emptied = after (delete_container 0 (bytes "web") (bytes "pve") calm)

delete_container-confirmed_example :
    (read_map (containers_of (entry_of 0 (bytes "pve") emptied)) (bytes "web") ≡ none)
    × (deleted_last emptied.trace ≡ true)
unfolding delete_container get_container get_container_id get_node get_cached_container_id
    containers find_container set_cached_container_id get_cached_container refresh_container
    fetch_container set_cached_container ping_container delete_if_named stop_and_destroy
    destroy_container delete_cached_container delete_cached_container_object wait_for text_eq handle
    perform gets modify return fail on_option ◌>>=◌
delete_container-confirmed_example =
    delete_container-confirmed 0 (bytes "web") (bytes "pve") calm emptied refl
