-- ===== src/Snapshot/Guests.antt =====
-- Snapshots and tags of guests: `CreateVMSnapshot`, `GetVMSnapshots` and `RemoveVirtualMachineTag` of
-- pkg/proxmox/virtualmachine.go, and `ExistsIn` and `SubstractSlices` of pkg/utils/utils.go.
use kubemox.Base.{Bool, List, Text, [], false, if◌then◌else◌, not, true, ℕ, ◌∷◌}
use kubemox.Client.Disk.{string_in_slice}
use kubemox.Client.Lookup.{get_virtual_machine, guest_at}
use kubemox.Client.Options.{must_get}
use kubemox.Client.Power.{on_guest}
use kubemox.World.Call.{Call}
use kubemox.World.Error.{task_error}
use kubemox.World.Monad.{
  Action, fail, finish_task, gets, on_option, perform, return, wait_for, ◌>>=◌, ◌>>◌,
}

-- `ExistsIn`; the Go map of texts to true is the list of its keys.
unfoldable pub exists_in : List Text → List Text → Bool
exists_in first [] = true
exists_in first (value ∷ second) =
    if not (string_in_slice value first) then false else exists_in first second

-- `SubstractSlices`
unfoldable pub substract_slices : List Text → List Text → List Text
substract_slices [] slice2 = []
substract_slices (elem ∷ slice1) slice2 =
    let rest = substract_slices slice1 slice2 in
    if not (string_in_slice elem slice2) then elem ∷ rest else rest

-- `CreateVMSnapshot`: the status code, which is 1 beside a nil error where a wait without an error does
-- not complete.
unfoldable pub create_vm_snapshot : ℕ → Text → Text → Text → Action ℕ
create_vm_snapshot pc vm_name node_name snapshot_name = do
  p ← get_virtual_machine pc vm_name node_name
  on_guest p (λ vmid. Call.new_snapshot vmid snapshot_name)
  end ← wait_for 3 10
  if not end.status
      then fail (task_error end.exit_status)
      else if not end.completed
      then on_option end.error (return 1) fail
      else return 0

-- `GetVMSnapshots`
unfoldable pub get_vm_snapshots : ℕ → Text → Text → Action (List Text)
get_vm_snapshots pc vm_name node_name = do
  p ← get_virtual_machine pc vm_name node_name
  guest ← guest_at p
  history ← gets (λ w. w.trace)
  perform (Call.list_snapshots guest.vmid)
  gets (λ w. w.env.snapshots_of history guest.vmid)

-- `RemoveVirtualMachineTag`
unfoldable pub remove_virtual_machine_tag : ℕ → Text → Text → Text → Action (Unit {0})
remove_virtual_machine_tag pc vm_name node_name tag = must_get pc vm_name node_name λ p. do
  on_guest p (λ vmid. Call.remove_tag vmid tag)
  end ← wait_for 5 3
  finish_task end (return tt)
