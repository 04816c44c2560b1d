-- ===== src/Client/Update.antt =====
-- `UpdateVM` of pkg/proxmox/virtualmachine.go: the cores and the memory of a guest.
use kubemox.Api.{VirtualMachine}
use kubemox.Base.{Bool, false, if◌then◌else◌, not, text_eq, true, ℕ, ◌/◌, ◌==◌, ◌||◌}
use kubemox.Client.Create.{get_cores, get_memory}
use kubemox.Client.Lookup.{get_virtual_machine, guest_at}
use kubemox.Client.Power.{on_guest, restart_vm, running_state}
use kubemox.World.Call.{Call}
use kubemox.World.Error.{task_error}
use kubemox.World.Monad.{Action, fail, return, return_error, wait_for, ◌>>=◌, ◌>>◌}

-- Whether the guest was changed. The two options are set in one call.
unfoldable pub update_vm : ℕ → VirtualMachine → Action Bool
update_vm pc vm = do
  p ← get_virtual_machine pc vm.spec.name vm.spec.node_name
  desired_cores ← get_cores vm
  desired_memory ← get_memory vm
  guest ← guest_at p
  if not (guest.cpus == desired_cores) || not (guest.max_mem / 1024 / 1024 == desired_memory)
      then (do
        on_guest p (λ vmid. Call.update vmid desired_cores desired_memory)
        end ← wait_for 10 3
        if not end.status
            then fail (task_error end.exit_status)
            else if not end.completed
            then (return_error end.error >> return false)
            else if not (text_eq guest.status running_state)
            then return true
            else (do
              restart_vm pc vm.spec.name vm.spec.node_name
              restarted ← wait_for 10 3
              if not restarted.status
                  then fail (task_error restarted.exit_status)
                  else if not restarted.completed
                  then (return_error restarted.error >> return false)
                  else return true))
      else return false
