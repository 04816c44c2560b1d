-- ===== src/Controller/Snapshot.antt =====
-- internal/controller/proxmox/virtualmachinesnapshot_controller.go. Log lines are left out.
use kubemox.Api.{VirtualMachine, VirtualMachineSnapshot}
use kubemox.Base.{
  Option, Text, [], bytes, if◌then◌else◌, is_nil, none, not, some, text_eq, ℕ, ◌++◌, ◌==◌, ◌∷◌,
}
use kubemox.Client.FromRef.{new_client_from_ref}
use kubemox.Controller.Claims.{name_conflict_requeue, owner, quoted}
use kubemox.Controller.Mode.{
  Result, disable, dont_requeue, get_reconcile_mode, ignore_not_found, requeue_in, update_object,
  vm_kind,
}
use kubemox.GuestName.Defs.{conn, for_vm, same_object}
use kubemox.Snapshot.Guests.{create_vm_snapshot, exists_in, get_vm_snapshots}
use kubemox.World.Call.{Call}
use kubemox.World.Monad.{Action, gets, handle, perform, return, return_error, ◌>>=◌, ◌>>◌}

abbrev pub snapshot_kind : Text
snapshot_kind = bytes "VirtualMachineSnapshot"

abbrev pub snapshot_created_status : Text
snapshot_created_status = bytes "Created"

-- A status patch: the status, and the error message that it sets.
unfoldable pub patch_snapshot : VirtualMachineSnapshot → Text → Text → Action (Unit {0})
patch_snapshot s status error_message =
    perform (Call.patch_snapshot s.metadata.namespace s.metadata.name status error_message)

-- The branch of a snapshot that is not there.
unfoldable pub take_snapshot :
    ℕ → VirtualMachineSnapshot → VirtualMachine → Text → Action (Unit {0})
take_snapshot pc s vm name =
    handle (create_vm_snapshot pc vm.spec.name vm.spec.node_name name) (ignore_not_found tt) λ code.
      if code == 0
      then handle (update_object snapshot_kind s.metadata s.metadata.finalizers)
          (ignore_not_found tt)
          (λ _. handle (patch_snapshot s snapshot_created_status []) (ignore_not_found tt) return)
      else handle (patch_snapshot s s.status (bytes "Snapshot creation failed"))
          (ignore_not_found tt) return

-- `handleSnapshotCreation`
unfoldable pub handle_snapshot_creation :
    ℕ → VirtualMachineSnapshot → VirtualMachine → Text → Action (Unit {0})
handle_snapshot_creation pc s vm name = do
  snapshots ← get_vm_snapshots pc vm.spec.name vm.spec.node_name
  if exists_in (name ∷ []) snapshots
      then handle (patch_snapshot s snapshot_created_status []) (ignore_not_found tt) return
      else if not (text_eq s.status snapshot_created_status)
      then take_snapshot pc s vm name
      else return tt

-- The name of the snapshot: the specification's, or the time's.
unfoldable pub snapshot_name_of : VirtualMachineSnapshot → Text → Text
snapshot_name_of s time =
    if is_nil s.snapshot_name then bytes "snapshot_" ++ time else s.snapshot_name

-- The lines of `Reconcile` on a virtual machine that owns its name.
unfoldable pub snapshot_owned : VirtualMachineSnapshot → VirtualMachine → Action Result
snapshot_owned s vm = do
  pc ← new_client_from_ref vm.spec.connection_ref
  time ← gets (λ w. w.env.timestamp w.trace)
  handle (handle_snapshot_creation pc s vm (snapshot_name_of s time))
      (ignore_not_found dont_requeue) (λ _. return dont_requeue)

-- The connection of a snapshot, which is empty where it has none.
abbrev pub ref_name : Option Text → Text
ref_name none = []
ref_name (some name) = name

-- The lines of `Reconcile` on the connection and the owner.
unfoldable pub snapshot_claimed : VirtualMachineSnapshot → VirtualMachine → Action Result
snapshot_claimed s vm =
    let claim = for_vm vm in
    let snapshot_conn = ref_name s.connection_ref in
    if not (text_eq snapshot_conn (conn claim))
    then handle
        (patch_snapshot s s.status (
          bytes "connectionRef "
          ++ quoted snapshot_conn
          ++ bytes " does not match "
          ++ quoted (conn claim)
          ++ bytes ", the connection of VirtualMachine "
          ++ vm.metadata.name))
        (ignore_not_found dont_requeue) (λ _. return dont_requeue)
    else (do
      winner ← owner claim
      if not (same_object winner claim)
          then return (requeue_in name_conflict_requeue)
          else snapshot_owned s vm)

-- `Reconcile`, once the object is read
unfoldable pub reconcile_snapshot : VirtualMachineSnapshot → Action Result
reconcile_snapshot s =
    if text_eq (get_reconcile_mode s.metadata) disable then return dont_requeue else (do
      history ← gets (λ w. w.trace)
      let namespace = s.metadata.namespace
      handle (perform (Call.kube_get vm_kind namespace s.virtual_machine_name))
          (ignore_not_found dont_requeue)
          (λ _. do
            env ← gets (λ w. w.env)
            let vm = env.stored_vm history namespace s.virtual_machine_name
            return_error (env.set_controller_reference vm.metadata namespace s.metadata.name)
            update_object snapshot_kind s.metadata s.metadata.finalizers
            snapshot_claimed s vm))

-- `Reconcile`, with `handleResourceNotFound`
unfoldable pub reconcile_snapshot_object : Text → Text → Action Result
reconcile_snapshot_object namespace name = do
  history ← gets (λ w. w.trace)
  handle (perform (Call.kube_get snapshot_kind namespace name)) (ignore_not_found dont_requeue)
      λ _. do s ← gets (λ w. w.env.stored_snapshot history namespace name); reconcile_snapshot s
