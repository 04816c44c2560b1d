-- ===== src/Client/Power.antt =====
-- Starting, stopping, rebooting and deleting a guest: `DeleteVM`, `StartVM`, `RestartVM`,
-- `StopVM`, `GetVMState`, `EnsureVMTag` and `RebootVM` of
-- pkg/proxmox/virtualmachine.go.
use kubemox.Base.{Bool, List, Text, bytes, if◌then◌else◌, not, text_eq, true, ℕ, ◌==◌}
use kubemox.Client.Cache.{forget_vm}
use kubemox.Client.Lookup.{get_virtual_machine, guest_at}
use kubemox.World.Call.{Call, Event}
use kubemox.World.Error.{message, not_found, task_error}
use kubemox.World.Monad.{
  Action, crash, fail, finish_task, gets, handle, modify, on_option, perform, return, return_error,
  wait_for, ◌>>=◌, ◌>>◌,
}

abbrev pub running_state : Text
running_state = bytes "running"

abbrev pub stopped_state : Text
stopped_state = bytes "stopped"

-- `VirtualMachine.Ping(ctx)` refreshes the object behind the pointer.
unfoldable pub ping : ℕ → Action (Unit {0})
ping vm = do
  history ← gets (λ w. w.trace)
  guest ← guest_at vm
  perform (Call.ping guest.vmid)
  modify
      (λ w. record w { guests = λ q. if q == vm then w.env.pinged history guest else w.guests q })

-- A call on the guest behind a pointer.
abbrev pub on_guest : ℕ → (ℕ → Call) → Action (Unit {0})
on_guest vm call = do guest ← guest_at vm; perform (call guest.vmid)

-- A call that gives back a task beside its error, and the caller that reads the task's exit status
-- then. The task is nil unless the library hands one over.
abbrev pub task_of_failure : List Event → Action (Unit {0})
task_of_failure history = do
  task ← gets (λ w. w.env.failed_task history)
  on_option task crash (λ exit_status. fail (task_error exit_status))

-- The stop of a running guest in `DeleteVM`, and what follows it. Where the stop does not complete
-- in time and `taskErr` is nil, `DeleteVM` returns at once with no error.
unfoldable pub stopped_in_time : ℕ → Action (Unit {0}) → Action (Unit {0})
stopped_in_time vm keep_going = do
  guest ← guest_at vm
  if text_eq guest.status running_state
      then (do
        history ← gets (λ w. w.trace)
        handle (on_guest vm Call.stop) (λ _. task_of_failure history)
            λ _. do end ← wait_for 10 3; finish_task end keep_going)
      else keep_going

-- `DeleteVM`
unfoldable pub delete_vm : ℕ → Text → Text → Action (Unit {0})
delete_vm pc vm_name node_name =
    handle (get_virtual_machine pc vm_name node_name) (λ e. fail (not_found (message e)))
      λ vm. do
        ping vm
        stopped_in_time vm (do
          on_guest vm Call.delete
          end ← wait_for 10 3
          finish_task end (do guest ← guest_at vm; forget_vm pc node_name vm_name guest.vmid))

-- `StartVM`: whether the guest runs.
unfoldable pub start_vm : ℕ → Text → Text → Action Bool
start_vm pc vm_name node_name = do
  vm ← get_virtual_machine pc vm_name node_name
  ping vm
  guest ← guest_at vm
  if text_eq guest.status running_state then return true else (do
    on_guest vm Call.start
    end ← wait_for 10 3
    if not end.status
        then fail (task_error end.exit_status)
        else (return_error end.error >> return end.completed))

-- `RestartVM`; its caller waits for the task.
unfoldable pub restart_vm : ℕ → Text → Text → Action (Unit {0})
restart_vm pc vm_name node_name = do
  vm ← get_virtual_machine pc vm_name node_name
  on_guest vm Call.reboot

-- `StopVM`
unfoldable pub stop_vm : ℕ → Text → Text → Action (Unit {0})
stop_vm pc vm_name node_name = do
  vm ← get_virtual_machine pc vm_name node_name
  on_guest vm Call.stop
  end ← wait_for 10 3
  finish_task end (return_error end.error)

-- `GetVMState`
unfoldable pub get_vm_state : ℕ → Text → Text → Action Text
get_vm_state pc vm_name node_name = do
  vm ← get_virtual_machine pc vm_name node_name
  guest ← guest_at vm
  return (
      if text_eq guest.status running_state
      then running_state
      else if text_eq guest.status stopped_state
      then stopped_state
      else bytes "unknown")

-- `EnsureVMTag`
unfoldable pub ensure_vm_tag : ℕ → Text → Text → Action (Unit {0})
ensure_vm_tag pc vm_name node_name = do
  vm ← get_virtual_machine pc vm_name node_name
  tag ← gets (λ w. w.env.virtual_machine_tag)
  is_err_noop ← gets (λ w. w.env.is_err_noop)
  handle (on_guest vm (λ vmid. Call.add_tag vmid tag))
      (λ e. if is_err_noop e then return tt else fail e)
      (λ _. do end ← wait_for 3 5; finish_task end (return tt))

-- `RebootVM` goes on after an error of the lookup or of the reboot: with a nil pointer, or with the
-- task that the library may give back beside the error.
unfoldable pub reboot_vm : ℕ → Text → Text → Action (Unit {0})
reboot_vm pc vm_name node_name =
    handle (get_virtual_machine pc vm_name node_name) (λ _. crash)
      λ vm. do
        history ← gets (λ w. w.trace)
        handle (on_guest vm Call.reboot)
            (λ _. do
              task ← gets (λ w. w.env.failed_task history)
              on_option task crash (λ _. do end ← wait_for 5 3; finish_task end (return tt)))
            (λ _. do end ← wait_for 5 3; finish_task end (return tt))
