-- ===== src/Controller/Isolation.antt =====
-- A resource that does not own its guest, or is not to be reconciled, leaves Proxmox alone.
use kubemox.Api.{Condition, ObjectMeta, VirtualMachine}
use kubemox.Base.{
  Bool, List, Option, Text, arith, false, inl, inr, subst, sym, text_eq, ℕ, ◌≡◌, ◌⊎◌,
}
use kubemox.Client.FromRef.{new_client_from_ref, resolve_credential, resolve_credentials}
use kubemox.Controller.Claims.{
  Claimed, claim_guest, grant, list_claims, mark_conflict, owner, release,
}
use kubemox.Controller.Deletion.{virtual_machine_finalizer_name}
use kubemox.Controller.Mode.{disable, dont_requeue, get_reconcile_mode, vm_kind, watch_only}
use kubemox.Controller.Reconcile.{
  emit_external_drift_event, reconcile_in_mode, reconcile_owned, reconcile_vm,
}
use kubemox.GuestName.Defs.{Claim, for_vm, same_object}
use kubemox.World.Call.{Call, reaches_proxmox}
use kubemox.World.Env.{Connection, SecretKeyReference}
use kubemox.World.Keeps.{Holds-after, Keeps-return, keeps_rules}
use kubemox.World.Monad.{
  Outcome, World, after, fail, gets, handle, modify, note, ok, on_option, perform, return, ◌>>=◌,
}
use kubemox.World.Trace.{Avoided, Avoids, Avoids-modify, Avoids-note, Avoids-perform}

module _ (q : Call → Bool) (offline : (c : Call) → reaches_proxmox c ≡ false → q c ≡ false) where
  perform_offline : (c : Call) → reaches_proxmox c ≡ false → Avoids q (perform c)
  perform_offline c h = Avoids-perform q c (offline c h)

  note_offline : (c : Call) → reaches_proxmox c ≡ false → Avoids q (note c)
  note_offline c h = Avoids-note q c (offline c h)

  list_claims_offline : (lxc : Bool) → Avoids q (list_claims lxc)
  unfolding list_claims
  list_claims_offline lxc = search (keeps_rules, perform_offline) depth 12

  pub claim_guest_offline :
      (kind : Text) (meta : ObjectMeta) (conditions : List Condition) (claim : Claim)
      (finalizer : Text)
      → Avoids q (claim_guest kind meta conditions claim finalizer)
  unfolding claim_guest owner grant release mark_conflict
  claim_guest_offline kind meta conditions claim finalizer =
      search (keeps_rules, perform_offline, list_claims_offline) depth 14

  resolve_credential_offline :
      (inline_field inline ref_field : Text) (ref : Option SecretKeyReference)
      → Avoids q (resolve_credential inline_field inline ref_field ref)
  unfolding resolve_credential
  resolve_credential_offline inline_field inline ref_field ref =
      search (keeps_rules, perform_offline) depth 14

  resolve_credentials_offline : (spec : Connection) → Avoids q (resolve_credentials spec)
  unfolding resolve_credentials
  resolve_credentials_offline spec = search (keeps_rules, resolve_credential_offline) depth 9

  modify_offline : (f : World → World) → ((w : World) → (f w).trace ≡ w.trace) → Avoids q (modify f)
  modify_offline f h = Avoids-modify q f h

  pub new_client_offline : (ref : Option Text) → Avoids q (new_client_from_ref ref)
  unfolding new_client_from_ref
  new_client_offline ref =
      search (keeps_rules, perform_offline, resolve_credentials_offline, modify_offline) depth 16

  drift_offline : (vm : VirtualMachine) → Avoids q (emit_external_drift_event vm)
  unfolding emit_external_drift_event
  drift_offline vm = search (keeps_rules, note_offline) depth 9

  idle_offline :
      (pc : ℕ) (vm : VirtualMachine)
      → (get_reconcile_mode vm.metadata ≡ watch_only) ⊎ (get_reconcile_mode vm.metadata ≡ disable)
      → Avoids q (reconcile_in_mode pc vm)
  unfolding reconcile_in_mode text_eq
  idle_offline pc vm (inl e) = simp e (Keeps-return dont_requeue)
  idle_offline pc vm (inr e) = simp e (Keeps-return dont_requeue)

  reconcile_idle :
      (vm : VirtualMachine)
      → (get_reconcile_mode vm.metadata ≡ watch_only) ⊎ (get_reconcile_mode vm.metadata ≡ disable)
      → Avoids q (reconcile_vm vm)
  unfolding reconcile_vm reconcile_owned
  reconcile_idle vm h =
      search (keeps_rules, claim_guest_offline, drift_offline, new_client_offline, idle) depth 12
    where
      idle :
          (pc : ℕ) (conditions : List Condition)
          → Avoids q (reconcile_in_mode pc (record vm { conditions = conditions }))
      idle pc conditions = idle_offline pc (record vm { conditions = conditions }) h

-- In the modes WatchOnly and Disable a reconcile makes no call to Proxmox, not even for a resource
-- that is being deleted.
pub idle_modes-Avoid-proxmox :
    (vm : VirtualMachine)
    → (get_reconcile_mode vm.metadata ≡ watch_only) ⊎ (get_reconcile_mode vm.metadata ≡ disable)
    → Avoids reaches_proxmox (reconcile_vm vm)
idle_modes-Avoid-proxmox vm h = reconcile_idle reaches_proxmox (λ c e. e) vm h

-- A loser's reconcile is its claim and nothing more.
loser_ends :
    (vm : VirtualMachine) (w w1 : World) (winner : Claim)
    → owner (for_vm vm) w ≡ ok winner w1
    → same_object winner (for_vm vm) ≡ false
    → after (reconcile_vm vm w)
      ≡ after (
          claim_guest vm_kind vm.metadata vm.conditions
            (for_vm vm)
            virtual_machine_finalizer_name
            w)
unfolding reconcile_vm claim_guest release mark_conflict ◌>>=◌ gets handle return fail perform
loser_ends vm w w1 winner o s = ground arith

-- A resource whose guest name another resource owns makes no call to Proxmox in its reconcile,
-- whatever its mode, and whether or not it is being deleted.
pub loser-Avoids-proxmox :
    (vm : VirtualMachine) (w w1 : World) (winner : Claim)
    → owner (for_vm vm) w ≡ ok winner w1
    → same_object winner (for_vm vm) ≡ false
    → Avoided reaches_proxmox w
    → Avoided reaches_proxmox (after (reconcile_vm vm w))
loser-Avoids-proxmox vm w w1 winner o s a =
    subst (Avoided reaches_proxmox) (sym (loser_ends vm w w1 winner o s)) (
      Holds-after (Avoided reaches_proxmox) (claim vm w) (
        (claim_guest_offline reaches_proxmox (λ c e. e) vm_kind vm.metadata vm.conditions
            (for_vm vm) virtual_machine_finalizer_name).run
          w a))
  where
    claim : VirtualMachine → World → Outcome Claimed
    claim vm =
        claim_guest vm_kind vm.metadata vm.conditions (for_vm vm) virtual_machine_finalizer_name

-- `claimGuest` grants the guest to a resource exactly if the owner that `guestname.Owner` finds is that
-- resource.
pub owned-eq-same_object :
    (kind : Text) (meta : ObjectMeta) (conditions : List Condition) (claim : Claim)
    (finalizer : Text) (w w' w1 : World) (c : Claimed) (winner : Claim)
    → claim_guest kind meta conditions claim finalizer w ≡ ok c w'
    → owner claim w ≡ ok winner w1
    → c.owned ≡ same_object winner claim
unfolding claim_guest grant release mark_conflict ◌>>=◌ gets on_option handle return fail perform
owned-eq-same_object kind meta conditions claim finalizer w w' w1 c winner h o = ground arith
