-- ===== src/Watcher/Sort.antt =====
-- The order of disks in a comparison: `sortDisks` of pkg/proxmox/virtualmachine.go.
use kubemox.Api.{VirtualMachineDisk}
use kubemox.Base.{Bool, List, [], if◌then◌else◌, text_eq, text_lt, ◌∷◌}

-- The function that `sortDisks` hands to `sort.Slice`.
unfoldable pub disk_less : VirtualMachineDisk → VirtualMachineDisk → Bool
disk_less d e =
    if text_eq d.storage e.storage then text_lt d.device e.device else text_lt d.storage e.storage

-- A disk in front of the first disk that is not less.
unfoldable pub insert_disk : VirtualMachineDisk → List VirtualMachineDisk → List VirtualMachineDisk
insert_disk d [] = d ∷ []
insert_disk d (e ∷ es) =
    let rest = insert_disk d es in if disk_less e d then e ∷ rest else d ∷ (e ∷ es)

-- `sortDisks`. `sort.Slice` sorts up to twelve elements by insertion and keeps the order of disks that are
-- not less than each other; beyond twelve it promises no order for those.
unfoldable pub sort_disks : List VirtualMachineDisk → List VirtualMachineDisk
sort_disks [] = []
sort_disks (d ∷ ds) = insert_disk d (sort_disks ds)
