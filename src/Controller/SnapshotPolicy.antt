-- ===== src/Controller/SnapshotPolicy.antt =====
-- internal/controller/proxmox/virtualmachinesnapshotpolicy_controller.go. The cron of a policy is its
-- schedule under the policy's key; what it runs when it fires is `fire`.
use kubemox.Api.{VirtualMachine, VirtualMachineSnapshotPolicy}
use kubemox.Base.{List, Option, Text, [], bytes, if◌then◌else◌, none, some, text_eq, ◌++◌, ◌∷◌}
use kubemox.Controller.Mode.{Result, disable, dont_requeue, get_reconcile_mode, ignore_not_found}
use kubemox.Controller.Snapshot.{ref_name, snapshot_kind}
use kubemox.GuestName.Defs.{conn, for_vm}
use kubemox.World.Call.{Call}
use kubemox.World.Error.{is_kube_not_found}
use kubemox.World.Monad.{
  Action, crash, gets, handle, modify, on_option, perform, return, ◌>>=◌, ◌>>◌,
}

abbrev pub policy_kind : Text
policy_kind = bytes "VirtualMachineSnapshotPolicy"

abbrev pub policy_key : VirtualMachineSnapshotPolicy → Text
policy_key p = p.metadata.namespace ++ (b'/' ∷ p.metadata.name)

-- `cronJobs`: a write of a key.
abbrev set_cron : Text → Option Text → Action (Unit {0})
set_cron key schedule =
    modify (λ w. record w { cron_jobs = λ k. if text_eq key k then schedule else w.cron_jobs k })

-- The loop of `GetMatchingVirtualMachines`.
unfoldable pub with_connection : Text → List VirtualMachine → List VirtualMachine
with_connection policy_conn [] = []
with_connection policy_conn (vm ∷ vms) =
    let rest = with_connection policy_conn vms in
    if text_eq (conn (for_vm vm)) policy_conn then vm ∷ rest else rest

-- `GetMatchingVirtualMachines`; an error of the list is logged, and the list is empty then.
unfoldable pub get_matching_virtual_machines :
    VirtualMachineSnapshotPolicy → Action (List VirtualMachine)
get_matching_virtual_machines p = do
  history ← gets (λ w. w.trace)
  items ←
      handle (perform (Call.kube_list (bytes "VirtualMachines"))) (λ _. return [])
        (λ _. gets (λ w. w.env.labelled_vms history p.metadata.namespace p.match_labels))
  return (with_connection (ref_name p.connection_ref) items)

-- A round of the loop of the cron's function; a failed creation ends it.
unfoldable pub snapshot_round : Text → VirtualMachine → Action (Unit {0}) → Action (Unit {0})
snapshot_round connection_name vm rest = do
  time ← gets (λ w. w.env.timestamp w.trace)
  let namespace = vm.metadata.namespace
  let name = vm.metadata.name ++ (b'-' ∷ time)
  handle (perform (Call.kube_get snapshot_kind namespace name))
      (λ e.
        if is_kube_not_found e
        then handle
            (perform (
              Call.create_snapshot_object namespace name vm.metadata.name
                (bytes "snapshot_" ++ time) connection_name))
            (λ _. return tt) (λ _. rest)
        else rest)
      (λ _. rest)

unfoldable pub snapshot_all : Text → List VirtualMachine → Action (Unit {0})
snapshot_all connection_name [] = return tt
snapshot_all connection_name (vm ∷ vms) =
    let rest = snapshot_all connection_name vms in snapshot_round connection_name vm rest

-- The function that the cron runs, with the connection that the policy had when it was started.
unfoldable pub fire : VirtualMachineSnapshotPolicy → Text → Action (Unit {0})
fire p connection_name = do vms ← get_matching_virtual_machines p; snapshot_all connection_name vms

-- `StartSnapshotCronJobs`; a nil `ConnectionRef` is a panic.
unfoldable pub start_snapshot_cron_jobs : VirtualMachineSnapshotPolicy → Action (Unit {0})
start_snapshot_cron_jobs p = on_option p.connection_ref crash λ _. do
  set_cron (policy_key p) none
  perform (Call.add_cron (policy_key p) p.snapshot_schedule)
  set_cron (policy_key p) (some p.snapshot_schedule)

-- `Reconcile`, once the object is read
unfoldable pub reconcile_policy : VirtualMachineSnapshotPolicy → Action Result
reconcile_policy p =
    if text_eq (get_reconcile_mode p.metadata) disable
    then set_cron (policy_key p) none >> return dont_requeue
    else start_snapshot_cron_jobs p >> return dont_requeue

-- `Reconcile`, with `handleResourceNotFound`
unfoldable pub reconcile_policy_object : Text → Text → Action Result
reconcile_policy_object namespace name = do
  history ← gets (λ w. w.trace)
  handle (perform (Call.kube_get policy_kind namespace name)) (ignore_not_found dont_requeue)
      λ _. do p ← gets (λ w. w.env.stored_policy history namespace name); reconcile_policy p
