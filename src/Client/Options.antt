-- ===== src/Client/Options.antt =====
-- Setting and deleting options of a guest: `deleteVirtualMachineOption`, `updateNetworkConfig`,
-- `addDiskConfig`, `updatePCIConfig`, `AddCloudInitDrive` and `ApplyAdditionalConfiguration` of
-- pkg/proxmox/virtualmachine.go and pkg/proxmox/virtualmachinetemplate.go.
use kubemox.Api.{VirtualMachine, VirtualMachineDisk, VirtualMachineNetwork}
use kubemox.Base.{
  List, Option, Text, [], bytes, get_elem?, if◌then◌else◌, itoa, none, not, some, text_eq, ℕ, ◌++◌,
  ◌∷◌,
}
use kubemox.Client.Lookup.{get_virtual_machine, guest_at}
use kubemox.Client.Power.{on_guest, reboot_vm}
use kubemox.World.Call.{Call}
use kubemox.World.Error.{Error, task_error}
use kubemox.World.Monad.{
  Action, crash, fail, finish_task, gets, handle, on_option, return, wait_for, ◌>>=◌, ◌>>◌,
}

-- `getVirtualMachine` where the caller logs an error and goes on with a nil pointer, which the next
-- line dereferences.
abbrev pub must_get : {A : Type 0} → ℕ → Text → Text → (ℕ → Action A) → Action A
must_get pc vm_name node_name f = handle (get_virtual_machine pc vm_name node_name) (λ _. crash) f

-- `deleteVirtualMachineOption`: the error of the call, beside the task. `*taskID` is dereferenced
-- whether or not there was an error.
unfoldable pub delete_virtual_machine_option : ℕ → VirtualMachine → Text → Action (Option Error)
delete_virtual_machine_option pc vm option = must_get pc vm.metadata.name vm.spec.node_name λ p. do
  history ← gets (λ w. w.trace)
  handle (on_guest p (λ vmid. Call.config vmid (bytes "delete") option))
      (λ e. do
        task ← gets (λ w. w.env.failed_task history)
        on_option task crash (λ _. return (some e)))
      (λ _. return none)

-- `updateNetworkConfig`; an index out of range panics.
unfoldable pub update_network_config :
    ℕ → VirtualMachine → ℕ → List VirtualMachineNetwork → Action (Unit {0})
update_network_config pc vm i networks = on_option (get_elem? networks i) crash λ network.
    must_get pc vm.metadata.name vm.spec.node_name λ p. do
      on_guest p (λ vmid.
          Call.config vmid (bytes "net" ++ itoa i)
            (network.model ++ bytes "," ++ bytes "bridge=" ++ network.bridge))
      end ← wait_for 5 3
      finish_task end (return tt)

-- `addDiskConfig`; a wait that does not complete is no error.
unfoldable pub add_disk_config : ℕ → VirtualMachine → VirtualMachineDisk → Action (Unit {0})
add_disk_config pc vm disk = do
  p ← get_virtual_machine pc vm.metadata.name vm.spec.node_name
  on_guest p (λ vmid. Call.config vmid disk.device (disk.storage ++ bytes ":" ++ itoa disk.size))
  end ← wait_for 5 3
  if not end.status then fail (task_error end.exit_status) else return tt

-- `AddCloudInitDrive`
unfoldable pub add_cloud_init_drive : ℕ → Text → Text → Action (Unit {0})
add_cloud_init_drive pc vm_name node_name = must_get pc vm_name node_name λ p. do
  guest ← guest_at p
  if not (text_eq guest.vm_config.ide2 []) then return tt else (do
    on_guest p (λ vmid. Call.config vmid (bytes "ide2") (bytes "local-lvm:cloudinit"))
    end ← wait_for 10 10
    finish_task end (return tt))

-- A round of the loop of `ApplyAdditionalConfiguration`, before the rest. An error of `Config` is
-- logged, and the wait goes on with the task given back beside it.
unfoldable pub apply_option : ℕ → Text → Text → Action (Unit {0}) → Action (Unit {0})
apply_option p key value rest = do
  history ← gets (λ w. w.trace)
  handle (on_guest p (λ vmid. Call.config vmid key value))
      (λ _. do
        task ← gets (λ w. w.env.failed_task history)
        on_option task crash (λ _. do end ← wait_for 5 3; finish_task end rest))
      (λ _. do end ← wait_for 5 3; finish_task end rest)

-- The loop, over the entries of the map in the order of `range`.
unfoldable pub apply_options : ℕ → List (Text × Text) → Action (Unit {0})
apply_options p [] = return tt
apply_options p ((key, value) ∷ options) =
    let rest = apply_options p options in apply_option p key value rest

-- `ApplyAdditionalConfiguration`, from the fields that it reads off a virtual machine or a template
unfoldable pub apply_additional_configuration :
    ℕ → Text → Text → List (Text × Text) → Action (Unit {0})
apply_additional_configuration pc vm_name node_name additional_config = do
  p ← get_virtual_machine pc vm_name node_name
  apply_options p additional_config
  history ← gets (λ w. w.trace)
  on_guest p Call.pending
  guest ← guest_at p
  needs_reboot ← gets (λ w. w.env.has_pending history guest.vmid)
  if needs_reboot
      then handle (reboot_vm pc vm_name node_name) (λ _. return tt) (λ _. return tt)
      else return tt
