-- ===== src/Client/Disk.antt =====
-- The disks of a guest: `classifyItems` and `applyChanges` of pkg/proxmox/generics.go at disks, and
-- `GetDiskConfiguration`, `parseDiskConfiguration`, `updateDiskConfig` and
-- `configureVirtualMachineDisk` of pkg/proxmox/virtualmachine.go.
use kubemox.Api.{VirtualMachine, VirtualMachineDisk}
use kubemox.Base.{
  Bool, List, Option, Text, [], atoi, bytes, contains, cut_suffix, false, get_elem?, if◌then◌else◌,
  itoa, map, none, not, some, split, text_eq, ℕ, ◌&&◌, ◌++◌, ◌/◌, ◌==◌, ◌||◌, ◌∷◌,
}
use kubemox.Client.Create.{get_disks}
use kubemox.Client.Lookup.{get_virtual_machine, guest_at}
use kubemox.Client.Options.{add_disk_config, delete_virtual_machine_option}
use kubemox.Client.Power.{on_guest}
use kubemox.GuestName.Defs.{list}
use kubemox.World.Call.{Call}
use kubemox.World.Error.{other, task_error}
use kubemox.World.Monad.{
  Action, crash, fail, on_option, return, return_error, wait_for, ◌>>=◌, ◌>>◌,
}
use mathlib.Core.Option

-- The last item of a list with a key, as a map filled in order keeps it.
unfoldable pub last_with_key : {I : Type 0} → (I → Text) → Text → List I → Option I
last_with_key get_key key [] = none
last_with_key get_key key (item ∷ items) = elim (last_with_key get_key key items) [
  | some found ↦ some found
  | none ↦ if text_eq (get_key item) key then some item else none
]

-- `utils.StringInSlice`
unfoldable pub string_in_slice : Text → List Text → Bool
string_in_slice str [] = false
string_in_slice str (v ∷ list) = text_eq v str || string_in_slice str list

-- The three lists of `classifyItems`; `equal` is `reflect.DeepEqual` on items.
module _ {I : Type 0} (equal : I → I → Bool) (get_key : I → Text) where
  unfoldable pub items_to_add : List I → List I → List I
  items_to_add [] actual = []
  items_to_add (item ∷ desired) actual =
      let rest = items_to_add desired actual in
      elim (last_with_key get_key (get_key item) actual) [ none ↦ item ∷ rest | some _ ↦ rest ]

  unfoldable pub items_to_update : List I → List I → List I
  items_to_update [] actual = []
  items_to_update (item ∷ desired) actual =
      let rest = items_to_update desired actual in
      elim (last_with_key get_key (get_key item) actual) [
        | none ↦ rest
        | some found ↦ if equal item found then rest else item ∷ rest
      ]

  unfoldable pub items_to_delete : List Text → List I → List I
  items_to_delete keys [] = []
  items_to_delete keys (item ∷ actual) =
      let rest = items_to_delete keys actual in
      if string_in_slice (get_key item) keys then rest else item ∷ rest

  -- `classifyItems`
  unfoldable pub classify_items : List I → List I → List I × List I × List I
  classify_items desired actual = (
    items_to_add desired actual,
    items_to_update desired actual,
    items_to_delete (map get_key desired) actual,
  )

-- The first two loops of `applyChanges`.
unfoldable pub apply_each : {I : Type 0} → (I → Action (Unit {0})) → List I → Action (Unit {0})
apply_each change [] = return tt
apply_each change (item ∷ items) = let rest = apply_each change items in change item >> rest

-- A round of the last loop of `applyChanges`, before the rest: the task is waited for only where the
-- call failed.
unfoldable pub delete_item : ℕ → VirtualMachine → Text → Action (Unit {0}) → Action (Unit {0})
delete_item pc vm device_id rest = do
  failed ← delete_virtual_machine_option pc vm device_id
  on_option failed rest λ e. do
    end ← wait_for 3 10
    if not end.status
        then fail (task_error end.exit_status)
        else if not end.completed
        then return_error end.error
        else fail e

-- The last loop of `applyChanges`.
unfoldable pub delete_each :
    {I : Type 0} → ℕ → VirtualMachine → (I → Text) → List I → Action (Unit {0})
delete_each pc vm get_device_id [] = return tt
delete_each pc vm get_device_id (item ∷ items) =
    let rest = delete_each pc vm get_device_id items in delete_item pc vm (get_device_id item) rest

-- `applyChanges`
unfoldable pub apply_changes :
    {I : Type 0}
    → ℕ
    → VirtualMachine
    → List I × List I × List I
    → (I → Text)
    → (I → Action (Unit {0}))
    → (I → Action (Unit {0}))
    → Action (Unit {0})
apply_changes pc vm (to_add, to_update, to_delete) get_device_id add_config update_config =
    apply_each add_config to_add
    >> apply_each update_config to_update
    >> delete_each pc vm get_device_id to_delete

-- The size that the first part holding "size" gives, in gigabytes; `none` is an error of `Atoi`.
-- A part with no "=" panics, which is the outer `none`. Other units leave the size 0.
size_in : Text → Option (Option ℕ)
size_in part =
    Option.map
      (λ size. elim (cut_suffix b'G' size) [
        | some trimmed ↦ atoi trimmed
        | none ↦ elim (cut_suffix b'M' size) [
          | some trimmed ↦ Option.map (λ mb. mb / 1024) (atoi trimmed)
          | none ↦ some 0
        ]
      ])
      (get_elem? (split b'=' part) 1)

unfoldable pub disk_size : List Text → Option (Option ℕ)
unfolding size_in
disk_size [] = some (some 0)
disk_size (part ∷ parts) = if contains part (bytes "size") then size_in part else disk_size parts

-- One entry of `parseDiskConfiguration`, such as "local-lvm:vm-100-disk-0,size=32G".
unfoldable pub parse_disk : Text → Text → Action VirtualMachineDisk
parse_disk device disk =
    let parts = split b',' disk in
    on_option (get_elem? parts 1)
      (fail (other (bytes "invalid format for disk configuration: " ++ disk)))
      λ _. on_option (get_elem? parts 0) crash λ first.
        on_option (get_elem? (split b':' first) 0) crash λ storage.
          on_option (disk_size parts) crash λ size.
            on_option size (fail (other (bytes "strconv.Atoi: parsing: invalid syntax")))
              λ gb. return (record { storage = storage; size = gb; device = device })

-- `parseDiskConfiguration`
unfoldable pub parse_disk_configuration : List (Text × Text) → Action (List VirtualMachineDisk)
parse_disk_configuration [] = return []
parse_disk_configuration ((device, disk) ∷ disks) = do
  parsed ← parse_disk device disk
  others ← parse_disk_configuration disks
  return (parsed ∷ others)

-- The entries that are no CD-ROM drives.
unfoldable pub without_cdrom : List (Text × Text) → List (Text × Text)
without_cdrom [] = []
without_cdrom ((key, value) ∷ disks) =
    let rest = without_cdrom disks in
    if contains value (bytes "media=cdrom") then rest else (key, value) ∷ rest

-- `GetDiskConfiguration`
unfoldable pub get_disk_configuration : ℕ → VirtualMachine → Action (List (Text × Text))
get_disk_configuration pc vm = do
  p ← get_virtual_machine pc vm.metadata.name vm.spec.node_name
  guest ← guest_at p
  return (without_cdrom guest.vm_config.disks)

-- The storage of the first disk with a device name, or "".
unfoldable pub storage_of : Text → List VirtualMachineDisk → Text
storage_of device [] = []
storage_of device (d ∷ ds) = if text_eq d.device device then d.storage else storage_of device ds

-- `updateDiskConfig`: a disk on another storage is left alone.
unfoldable pub update_disk_config : ℕ → VirtualMachine → VirtualMachineDisk → Action (Unit {0})
update_disk_config pc vm disk = do
  actual_disks_map ← get_disk_configuration pc vm
  actual_disks ← parse_disk_configuration actual_disks_map
  let actual_storage = storage_of disk.device actual_disks
  if not (text_eq actual_storage []) && not (text_eq actual_storage disk.storage)
      then return tt
      else (do
        p ← get_virtual_machine pc vm.metadata.name vm.spec.node_name
        on_guest p (λ vmid. Call.resize_disk vmid disk.device (itoa disk.size ++ bytes "G")))

abbrev pub same_disk : VirtualMachineDisk → VirtualMachineDisk → Bool
same_disk a b = text_eq a.storage b.storage && ((a.size == b.size) && text_eq a.device b.device)

-- `configureVirtualMachineDisk`, with `classifyDisks` and `applyDiskChanges`
unfoldable pub configure_virtual_machine_disk : ℕ → VirtualMachine → Action (Unit {0})
configure_virtual_machine_disk pc vm = do
  disks ← get_disks vm
  actual ← get_disk_configuration pc vm
  parsed ← parse_disk_configuration actual
  apply_changes pc vm (classify_items same_disk (λ d. d.device) disks parsed) (λ d. d.device)
      (add_disk_config pc vm) (update_disk_config pc vm)
