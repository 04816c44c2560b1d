-- ===== src/Controller/Scaling.antt =====
-- What the controller of sets makes and deletes:
-- internal/controller/proxmox/virtualmachineset_controller.go.
use kubemox.Api.{VirtualMachine, VirtualMachineSet}
use kubemox.Base.{
  Bool, Bool-cases, List, Option, Text, [], ap, arith, bytes, false, inl, inr, itoa, length, ltb,
  none, refl, some, subst, suc, sym, text_eq, text_eq_refl, text_eq→≡, true, true≢false, zero, ℕ,
  ◌++◌, ◌+◌, ◌<◌, ◌==◌, ◌∙◌, ◌∷◌, ◌≡◌, ◌≤◌,
}
use kubemox.Client.Disk.{string_in_slice}
use kubemox.Controller.Mode.{Result, requeue_in}
use kubemox.Controller.Outcomes.{is_kube_update}
use kubemox.Controller.Set.{
  create_or_update_virtual_machine_crs, create_replica, create_replicas, delete_all_owned,
  delete_all_unexpected, delete_owned, delete_unexpected, expected_name, expected_names,
  handle_set_delete, handle_vmset_operations, reconcile_set_deletion, release_set, replica_call,
  replica_name, scale_down_vms,
}
use kubemox.World.Call.{Call}
use kubemox.World.Error.{Error}
use kubemox.World.Keeps.{Holds, Keeps, Keeps-return, keeps_rules}
use kubemox.World.Monad.{Action, Outcome, World, err, fail, handle, logged, ok, perform}
use kubemox.World.Trace.{Avoids, avoids, avoids_rules}

-- A call with the property has been made.
abbrev pub Made : (Call → Bool) → World → Type 0
Made q w = avoids q w.trace ≡ false

Made-perform : (q : Call → Bool) (c : Call) → Keeps (Made q) (Made q) (perform c)
unfolding perform
Made-perform q c = record { run = λ w t. go (w.env.failure w.trace c) w t }
  where
    go :
        (o : Option Error) (w : World)
        → Made q w
        → Holds (Made q) (Made q) (
            let r : Outcome (Unit {0}) = elim o [
              | none ↦ ok tt (logged c true w)
              | some e ↦ err e (logged c false w)
            ] in
            r)
    go none w t = ground arith
    go (some e) w t = ground arith

create_replica-Made :
    (q : Call → Bool) (c : Call) (rest : Action (Unit {0}))
    → Keeps (Made q) (Made q) rest
    → Keeps (Made q) (Made q) (create_replica c rest)
unfolding create_replica
create_replica-Made q c rest k = search (keeps_rules, Made-perform) depth 8

create_replicas-Made :
    (q : Call → Bool) (set : VirtualMachineSet) (i n : ℕ)
    → Keeps (Made q) (Made q) (create_replicas set i n)
unfolding create_replicas
create_replicas-Made q set i zero = Keeps-return tt
create_replicas-Made q set i (suc n) =
    create_replica-Made q (replica_call set i) (create_replicas set (suc i) n)
      (create_replicas-Made q set (suc i) n)

replica_now :
    (q : Call → Bool) (c : Call) (rest : Action (Unit {0})) (w w' : World)
    → q c ≡ true
    → Keeps (Made q) (Made q) rest
    → create_replica c rest w ≡ ok tt w'
    → Made q w'
unfolding create_replica handle perform fail
replica_now q c rest w w' h k e = ground (arith, of_ok (logged c true w), of_ok (logged c false w))
  where
    of_ok : (v : World) → Made q v → rest v ≡ ok tt w' → Made q w'
    of_ok v m r = subst (Holds (Made q) (Made q)) r (k.run v m)

replica_later :
    (q : Call → Bool) (c : Call) (rest : Action (Unit {0})) (w w' : World)
    → ((v : World) → rest v ≡ ok tt w' → Made q w')
    → create_replica c rest w ≡ ok tt w'
    → Made q w'
unfolding create_replica handle perform fail
replica_later q c rest w w' k e = ground (arith, k (logged c true w), k (logged c false w))

makes_from :
    (q : Call → Bool) (set : VirtualMachineSet) (i n j : ℕ) (w w' : World)
    → i ≤ j
    → j < i + n
    → q (replica_call set j) ≡ true
    → create_replicas set i n w ≡ ok tt w'
    → Made q w'
unfolding create_replicas
makes_from q set i zero j w w' h k l e = ground arith
makes_from q set i (suc n) j w w' h k l e = elim (Bool-cases (ltb i j)) [
  | inl b ↦
      replica_later q (replica_call set i) (create_replicas set (suc i) n) w w'
        (λ v r. makes_from q set (suc i) n j v w' (ground arith) (omega arith) l r) e
  | inr b ↦
      let same : j ≡ i = ground arith in
      replica_now q (replica_call set i) (create_replicas set (suc i) n) w w'
        (subst (λ m. q (replica_call set m) ≡ true) same l) (create_replicas-Made q set (suc i) n) e
]

-- Where `createOrUpdateVirtualMachineCRs` ends with no error, it has asked for the virtual machine of
-- every replica, with its specification.
pub creates_every_replica :
    (q : Call → Bool) (set : VirtualMachineSet) (j : ℕ) (w w' : World)
    → j < set.spec.replicas
    → q (replica_call set j) ≡ true
    → create_or_update_virtual_machine_crs set w ≡ ok tt w'
    → Made q w'
unfolding create_or_update_virtual_machine_crs
creates_every_replica q set j w w' h l e =
    makes_from q set 0 set.spec.replicas j w w' (omega arith) (omega arith) l e

-- The call deletes a virtual machine with the name.
abbrev pub deletes_named : Text → Call → Bool
deletes_named name (Call.kube_delete _ _ deleted) = text_eq deleted name
deletes_named name _ = false

-- The names that are made are among those that are expected.
replica_name_expected :
    (set : VirtualMachineSet) (i n j : ℕ)
    → i ≤ j
    → j < i + n
    → string_in_slice (replica_name set j) (expected_names set i n) ≡ true
unfolding expected_names string_in_slice replica_name expected_name
replica_name_expected set i zero j h k = ground arith
replica_name_expected set i (suc n) j h k = elim (Bool-cases (ltb i j)) [
  | inl b ↦
      let later = replica_name_expected set (suc i) n j (ground arith) (omega arith) in
      ground (arith, later)
  | inr b ↦
      let same : j ≡ i = ground arith in
      rw same (ground (arith, text_eq_refl (set.metadata.name ++ (bytes "-" ++ itoa i))))
]

delete_unexpected-Avoids :
    (name : Text) (expected : List Text) (vm : VirtualMachine) (rest : Action (Unit {0}))
    → string_in_slice name expected ≡ true
    → Avoids (deletes_named name) rest
    → Avoids (deletes_named name) (delete_unexpected expected vm rest)
unfolding delete_unexpected
delete_unexpected-Avoids name expected vm rest h k =
    elim (Bool-cases (string_in_slice vm.metadata.name expected)) [
      | inl e ↦ simp e k
      | inr e ↦ elim (Bool-cases (text_eq vm.metadata.name name)) [
        | inl t ↦
            let same = text_eq→≡ vm.metadata.name name t in
            absurd (true≢false (sym h ∙ sym (ap (λ n. string_in_slice n expected) same) ∙ e))
        | inr d ↦ simp e (search (avoids_rules, d) depth 8)
      ]
    ]

delete_all_unexpected-Avoids :
    (name : Text) (expected : List Text) (vms : List VirtualMachine)
    → string_in_slice name expected ≡ true
    → Avoids (deletes_named name) (delete_all_unexpected expected vms)
unfolding delete_all_unexpected
delete_all_unexpected-Avoids name expected [] h = Keeps-return tt
delete_all_unexpected-Avoids name expected (vm ∷ vms) h =
    delete_unexpected-Avoids name expected vm _ h (delete_all_unexpected-Avoids name expected vms h)

create_replica-Avoids :
    (name : Text) (c : Call) (rest : Action (Unit {0}))
    → deletes_named name c ≡ false
    → Avoids (deletes_named name) rest
    → Avoids (deletes_named name) (create_replica c rest)
unfolding create_replica
create_replica-Avoids name c rest h k = search avoids_rules depth 8

create_replicas-Avoids :
    (name : Text) (set : VirtualMachineSet) (i n : ℕ)
    → Avoids (deletes_named name) (create_replicas set i n)
unfolding create_replicas
create_replicas-Avoids name set i zero = Keeps-return tt
create_replicas-Avoids name set i (suc n) =
    create_replica-Avoids name (replica_call set i) (create_replicas set (suc i) n) refl
      (create_replicas-Avoids name set (suc i) n)

-- Scaling a set, up or down, deletes no virtual machine with a name that the set gives to one of its
-- replicas, for every index below the number of replicas.
pub scaling-Avoids-replicas :
    (set : VirtualMachineSet) (vms : List VirtualMachine) (j : ℕ)
    → j < set.spec.replicas
    → Avoids (deletes_named (replica_name set j)) (handle_vmset_operations set vms)
unfolding handle_vmset_operations scale_down_vms create_or_update_virtual_machine_crs
scaling-Avoids-replicas set vms j h =
    let expected = replica_name_expected set 0 set.spec.replicas j (omega arith) (omega arith) in
    search (avoids_rules, delete_all_unexpected-Avoids, create_replicas-Avoids, expected) depth 12

delete_owned-Avoids :
    (vm : VirtualMachine) (rest : Action Result)
    → Avoids is_kube_update rest
    → Avoids is_kube_update (delete_owned vm rest)
unfolding delete_owned
delete_owned-Avoids vm rest k = search avoids_rules depth 10

delete_all_owned-Avoids : (vms : List VirtualMachine) → Avoids is_kube_update (delete_all_owned vms)
unfolding delete_all_owned
delete_all_owned-Avoids [] = Keeps-return (requeue_in 1)
delete_all_owned-Avoids (vm ∷ vms) =
    delete_owned-Avoids vm (delete_all_owned vms) (delete_all_owned-Avoids vms)

release_set-Avoids :
    (set : VirtualMachineSet) (vms : List VirtualMachine)
    → 0 < length vms
    → Avoids is_kube_update (release_set set vms)
unfolding release_set
release_set-Avoids set vms h =
    let owned : (length vms == 0) ≡ false = ground arith in simp owned (delete_all_owned-Avoids vms)

-- A set that is being deleted keeps its finalizer while it has virtual machines: its deletion ends with no
-- update of an object.
pub set_deletion-Avoids-update :
    (set : VirtualMachineSet) (vms : List VirtualMachine)
    → 0 < length vms
    → Avoids is_kube_update (reconcile_set_deletion set vms)
unfolding reconcile_set_deletion handle_set_delete
set_deletion-Avoids-update set vms h = search (avoids_rules, release_set-Avoids) depth 16
