-- ===== src/Controller/Outcomes.antt =====
-- What the operations on the guest of a VirtualMachine end with.
use kubemox.Api.{VirtualMachine}
use kubemox.Base.{Bool, Option, arith, bytes, false, none, some, true, ℕ, ◌∷◌, ◌≡◌}
use kubemox.Client.Lookup.{get_virtual_machine}
use kubemox.Client.Power.{delete_vm}
use kubemox.Controller.Actions.{give_up}
use kubemox.Controller.Deletion.{
  delete_and_release, delete_virtual_machine, virtual_machine_finalizer_name,
}
use kubemox.Controller.Mode.{Result, dont_requeue, vm_kind}
use kubemox.Controller.Reconcile.{
  finish_operations, handle_virtual_machine_operations, operate_on_existing, operate_on_missing,
}
use kubemox.World.Call.{Call}
use kubemox.World.Error.{Error, is_not_found}
use kubemox.World.Monad.{
  World, after, err, fail, gets, handle, logged, note, ok, perform, return, ◌>>=◌,
}
use kubemox.World.Trace.{Avoided}

finish_never_requeues :
    (pc : ℕ) (vm : VirtualMachine) (w w' : World) (r : Result)
    → finish_operations pc vm w ≡ ok r w'
    → r ≡ dont_requeue
unfolding finish_operations ◌>>=◌ return
finish_never_requeues pc vm w w' r h = ground arith

-- `handleVirtualMachineOperations` never asks for a requeue: where it ends with no error, its result
-- is empty, also where `CreateVirtualMachine` returned a delay of ten seconds for a template that was
-- not found.
pub operations_never_requeue :
    (pc : ℕ) (vm : VirtualMachine) (w w' : World) (r : Result)
    → handle_virtual_machine_operations pc vm w ≡ ok r w'
    → r ≡ dont_requeue
unfolding handle_virtual_machine_operations operate_on_existing operate_on_missing finish_operations
    ◌>>=◌ handle return fail
operations_never_requeue pc vm w w' r h = ground arith

abbrev pub is_none : {A : Type 0} → Option A → Bool
is_none none = true
is_none (some _) = false

abbrev pub is_kube_update : Call → Bool
is_kube_update (Call.kube_update _ _ _ _) = true
is_kube_update _ = false

-- The world in which `DeleteVirtualMachine` asks for the deletion: the watch is ended and an event is
-- recorded.
abbrev pub deletion_started : VirtualMachine → World → World
deletion_started vm w =
    logged (Call.record_event (bytes "Deleting") vm.spec.name) true
      (logged (Call.unregister vm.metadata.namespace vm.metadata.name) true w)

-- The update that takes the finalizer off.
abbrev pub release_call : VirtualMachine → World → Call
release_call vm w =
    Call.kube_update vm_kind vm.metadata.namespace vm.metadata.name
      (w.env.remove_finalizer vm.metadata.finalizers virtual_machine_finalizer_name).0

-- A deletion that fails keeps the finalizer: where `DeleteVM` of an unprotected resource ends with an
-- error that is no NotFoundError, `handleDelete` ends with no update of the object.
pub failed_delete_keeps_finalizer :
    (pc : ℕ) (vm : VirtualMachine) (w w' : World) (e : Error)
    → vm.spec.deletion_protection ≡ false
    → delete_vm pc vm.spec.name vm.spec.node_name (deletion_started vm w) ≡ err e w'
    → is_not_found e ≡ false
    → Avoided is_kube_update w'
    → Avoided is_kube_update (after (delete_and_release pc vm w))
unfolding delete_and_release delete_virtual_machine give_up ◌>>=◌ handle return fail note perform
    gets
failed_delete_keeps_finalizer pc vm w w' e p h n a = ground arith

-- The finalizer goes without a deletion where the guest cannot be looked up: any error of
-- `getVirtualMachine`, such as an unreachable Proxmox, is taken for a guest that is gone. The object is
-- updated without its finalizer in the next call.
pub lookup_failure_releases :
    (pc : ℕ) (vm : VirtualMachine) (w w' : World) (e : Error)
    → vm.spec.deletion_protection ≡ false
    → get_virtual_machine pc vm.spec.name vm.spec.node_name (deletion_started vm w) ≡ err e w'
    → (after (delete_and_release pc vm w)).trace
      ≡ record {
        call = release_call vm w';
        succeeded = is_none (w'.env.failure w'.trace (release_call vm w'));
      }
        ∷ w'.trace
unfolding delete_and_release delete_virtual_machine delete_vm ◌>>=◌ handle return fail note perform
    gets is_not_found
lookup_failure_releases pc vm w w' e p h = ground arith
