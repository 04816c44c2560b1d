-- ===== src/Controller/SnapshotOutcomes.antt =====
-- When a VirtualMachineSnapshot reaches Proxmox, and what the test for an existing snapshot says:
-- internal/controller/proxmox/virtualmachinesnapshot_controller.go and pkg/utils/utils.go.
use kubemox.Api.{VirtualMachine, VirtualMachineSnapshot}
use kubemox.Base.{
  All, Bool, Bool-cases, List, Option, Text, [], ap, arith, false, if◌then◌else◌, inl, inr, refl,
  subst, sym, text_eq, text_eq_refl, text_eq→≡, true, true≢false, ℕ, ◌∙◌, ◌∷◌, ◌≡◌, ◌⊎◌,
}
use kubemox.Client.Disk.{string_in_slice}
use kubemox.Controller.Claims.{name_conflict_requeue, owner}
use kubemox.Controller.Mode.{
  Result, disable, dont_requeue, get_reconcile_mode, ignore_not_found, requeue_in, update_object,
  vm_kind,
}
use kubemox.Controller.Snapshot.{
  handle_snapshot_creation, patch_snapshot, reconcile_snapshot, ref_name, snapshot_claimed,
  snapshot_created_status, snapshot_kind, take_snapshot,
}
use kubemox.GuestName.Defs.{Claim, conn, for_vm, same_object}
use kubemox.Snapshot.Guests.{exists_in, get_vm_snapshots}
use kubemox.World.Call.{Call, reaches_proxmox}
use kubemox.World.Ends.{handle-err, handle-ok, perform_cases}
use kubemox.World.Error.{Error}
use kubemox.World.Keeps.{Holds-after}
use kubemox.World.Monad.{
  World, after, fail, gets, handle, logged, ok, perform, return, return_error, ◌>>=◌, ◌>>◌,
}
use kubemox.World.Trace.{Avoided, Avoids, avoids_rules}

string_in_one : (s t : Text) → string_in_slice s (t ∷ []) ≡ text_eq t s
unfolding string_in_slice
string_in_one s t = ground arith

exists_in-All :
    (name : Text) (snapshots : List Text)
    → exists_in (name ∷ []) snapshots ≡ true
    → All (λ s. name ≡ s) snapshots
unfolding exists_in
exists_in-All name [] h = tt
exists_in-All name (s ∷ snapshots) h = (
  text_eq→≡ name s (ground (arith, string_in_one s name)),
  exists_in-All name snapshots (ground arith),
)

exists_in-of_All :
    (name : Text) (snapshots : List Text)
    → All (λ s. name ≡ s) snapshots
    → exists_in (name ∷ []) snapshots ≡ true
unfolding exists_in
exists_in-of_All name [] h = refl
exists_in-of_All name (s ∷ snapshots) h =
    let found : string_in_slice s (name ∷ []) ≡ true =
      string_in_one s name ∙ subst (λ t. text_eq name t ≡ true) h.0 (text_eq_refl name) in
    rw found (exists_in-of_All name snapshots h.1)

exists_in_cases :
    (name : Text) (snapshots : List Text)
    → ((exists_in (name ∷ []) snapshots ≡ true) × All (λ t. name ≡ t) snapshots)
      ⊎ ((exists_in (name ∷ []) snapshots ≡ false) × (¬ All (λ t. name ≡ t) snapshots))
exists_in_cases name snapshots = elim (Bool-cases (exists_in (name ∷ []) snapshots)) [
  | inl h ↦ inl (h, exists_in-All name snapshots h)
  | inr h ↦ inr (h, λ a. true≢false (sym (exists_in-of_All name snapshots a) ∙ h))
]

-- The status patch of a snapshot that is there.
abbrev pub created_patch : VirtualMachineSnapshot → Call
created_patch s =
    Call.patch_snapshot s.metadata.namespace s.metadata.name snapshot_created_status []

patched_only :
    (s : VirtualMachineSnapshot) (w : World)
    → (b : Bool) × (after
          (handle (patch_snapshot s snapshot_created_status []) (ignore_not_found tt) return w)
        ≡ logged (created_patch s) b w)
unfolding patch_snapshot return fail
patched_only s w = elim (perform_cases (created_patch s) w) [
  | inl e ↦ (true, ap after (handle-ok _ (ignore_not_found tt) return w _ tt e))
  | inr p ↦ (false, ap after (handle-err _ (ignore_not_found tt) return w _ p.0 p.1) ∙ ground arith)
]

-- Where the snapshots of the guest are listed, `handleSnapshotCreation` takes the snapshot for one that is
-- there already exactly where every snapshot of the guest has its name: then it only patches the status to
-- "Created", also for a guest with no snapshot at all. Else, where the status is not "Created", it goes on
-- to take the snapshot, also where one with its name stands beside another.
pub handle_snapshot_creation_lem :
    (pc : ℕ) (s : VirtualMachineSnapshot) (vm : VirtualMachine) (name : Text)
    (snapshots : List Text) (w w1 : World)
    → get_vm_snapshots pc vm.spec.name vm.spec.node_name w ≡ ok snapshots w1
    → (All (λ t. name ≡ t) snapshots
        × (b : Bool) × (after (handle_snapshot_creation pc s vm name w)
            ≡ logged (created_patch s) b w1))
      ⊎ ((¬ All (λ t. name ≡ t) snapshots)
          × (handle_snapshot_creation pc s vm name w
              ≡ (if text_eq s.status snapshot_created_status
                    then return tt
                    else take_snapshot pc s vm name)
                  w1))
unfolding handle_snapshot_creation ◌>>=◌
handle_snapshot_creation_lem pc s vm name snapshots w w1 h = elim (exists_in_cases name snapshots) [
  | inl p ↦ let q = patched_only s w1 in inl (p.1, q.0, ground (arith, h, p.0, q.1))
  | inr p ↦ inr (p.1, ground (arith, h, p.0))
]

claimed_elsewhere :
    (s : VirtualMachineSnapshot) (vm : VirtualMachine)
    → text_eq (ref_name s.connection_ref) (conn (for_vm vm)) ≡ false
    → Avoids reaches_proxmox (snapshot_claimed s vm)
unfolding snapshot_claimed patch_snapshot
claimed_elsewhere s vm h = rw h (search avoids_rules depth 12)

-- The lines of `Reconcile` behind the read of the virtual machine.
behind_read :
    (s : VirtualMachineSnapshot) (vm : VirtualMachine) (e : Option Error)
    → text_eq (ref_name s.connection_ref) (conn (for_vm vm)) ≡ false
    → Avoids reaches_proxmox (
        return_error e
        >> (update_object snapshot_kind s.metadata s.metadata.finalizers >> snapshot_claimed s vm))
behind_read s vm e h = search (avoids_rules, claimed_elsewhere) depth 14

not_found_ignored :
    (e : Error) → Avoids {A = Result} reaches_proxmox (ignore_not_found dont_requeue e)
not_found_ignored e = search avoids_rules depth 8

-- The virtual machine that a reconcile of the snapshot reads.
abbrev pub machine_of : VirtualMachineSnapshot → World → VirtualMachine
machine_of s w = w.env.stored_vm w.trace s.metadata.namespace s.virtual_machine_name

-- A snapshot whose connection is not that of the virtual machine that its reconcile reads makes no call to
-- Proxmox in its reconcile, whatever its mode.
pub other_connection-Avoids-proxmox :
    (s : VirtualMachineSnapshot) (w : World)
    → text_eq (ref_name s.connection_ref) (conn (for_vm (machine_of s w))) ≡ false
    → Avoided reaches_proxmox w
    → Avoided reaches_proxmox (after (reconcile_snapshot s w))
unfolding reconcile_snapshot gets ◌>>=◌ return
other_connection-Avoids-proxmox s w h a =
    let c = Call.kube_get vm_kind s.metadata.namespace s.virtual_machine_name in
    let e =
      w.env.set_controller_reference (machine_of s w).metadata s.metadata.namespace
        s.metadata.name in
    elim (Bool-cases (text_eq (get_reconcile_mode s.metadata) disable)) [
      | inl m ↦ simp m a
      | inr m ↦ simp m (elim (perform_cases c w) [
        | inl k ↦
            subst (λ o. Avoided reaches_proxmox (after o))
              (sym (handle-ok (perform c) _ _ w _ tt k))
              (Holds-after (Avoided reaches_proxmox) _
                ((behind_read s (machine_of s w) e h).run (logged c true w) a))
        | inr p ↦
            subst (λ o. Avoided reaches_proxmox (after o))
              (sym (handle-err (perform c) _ _ w _ p.0 p.1))
              (Holds-after (Avoided reaches_proxmox) _
                ((not_found_ignored p.0).run (logged c false w) a))
      ])
    ]

-- A snapshot of a virtual machine whose guest name another resource owns waits for the owner to change.
snapshot_loser_waits :
    (s : VirtualMachineSnapshot) (vm : VirtualMachine) (w w1 : World) (winner : Claim)
    → owner (for_vm vm) w ≡ ok winner w1
    → same_object winner (for_vm vm) ≡ false
    → text_eq (ref_name s.connection_ref) (conn (for_vm vm)) ≡ true
    → snapshot_claimed s vm w ≡ ok (requeue_in name_conflict_requeue) w1
unfolding snapshot_claimed ◌>>=◌ return
snapshot_loser_waits s vm w w1 winner o n h = ground arith
