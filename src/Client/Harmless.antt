-- ===== src/Client/Harmless.antt =====
-- Which operations of the client delete a guest: only `DeleteVM` does.
use kubemox.Api.{VirtualMachine}
use kubemox.Base.{Bool, Text, false, if◌then◌else◌, refl, true, ℕ, ◌==◌, ◌≡◌}
use kubemox.Client.Cache.{get_node, set_cached_vmid}
use kubemox.Client.Create.{
  create_vm_from_scratch, create_vm_from_template, get_cores, get_memory, get_next_vmid,
}
use kubemox.Client.Lookup.{check_vm, get_virtual_machine}
use kubemox.Client.Power.{
  ensure_vm_tag, get_vm_state, ping, reboot_vm, restart_vm, start_vm, stop_vm,
}
use kubemox.Client.Quiet.{
  check_vm-Avoids, get_node-Avoids, get_virtual_machine-Avoids, set_cached_vmid-Avoids,
}
use kubemox.Client.Update.{update_vm}
use kubemox.World.Call.{Call, changes_guest}
use kubemox.World.Env.{Guest}
use kubemox.World.Keeps.{keeps_rules}
use kubemox.World.Monad.{World, crash, modify, note, perform, wait_for}
use kubemox.World.Trace.{
  Avoids, Avoids-crash, Avoids-modify, Avoids-note, Avoids-perform, Avoids-wait_for,
}

abbrev pub is_delete : Call → Bool
is_delete (Call.delete _) = true
is_delete _ = false

reads_only : (c : Call) → changes_guest c ≡ false → is_delete c ≡ false
reads_only (Call.delete _) h = cc
reads_only _ h = refl

pub get_virtual_machine-Keeps :
    (pc : ℕ) (vm_name node_name : Text)
    → Avoids is_delete (get_virtual_machine pc vm_name node_name)
get_virtual_machine-Keeps = get_virtual_machine-Avoids is_delete reads_only

pub get_node-Keeps : (pc : ℕ) (node_name : Text) → Avoids is_delete (get_node pc node_name)
get_node-Keeps = get_node-Avoids is_delete reads_only

pub set_cached_vmid-Keeps :
    (pc : ℕ) (node_name vm_name : Text) (vmid : ℕ)
    → Avoids is_delete (set_cached_vmid pc node_name vm_name vmid)
set_cached_vmid-Keeps = set_cached_vmid-Avoids is_delete reads_only

pub check_vm-Keeps :
    (pc : ℕ) (vm_name node_name : Text) → Avoids is_delete (check_vm pc vm_name node_name)
check_vm-Keeps = check_vm-Avoids is_delete reads_only

pub crash-Keeps : {A : Type 0} → Avoids {A = A} is_delete crash
crash-Keeps = Avoids-crash is_delete

pub perform-Keeps : (c : Call) → is_delete c ≡ false → Avoids is_delete (perform c)
perform-Keeps c h = Avoids-perform is_delete c h

pub note-Keeps : (c : Call) → is_delete c ≡ false → Avoids is_delete (note c)
note-Keeps c h = Avoids-note is_delete c h

pub wait_for-Keeps : (times steps : ℕ) → Avoids is_delete (wait_for times steps)
wait_for-Keeps times steps = Avoids-wait_for is_delete times steps refl

pub ruleset harmless_rules = (
  keeps_rules, perform-Keeps, note-Keeps, wait_for-Keeps, crash-Keeps, get_virtual_machine-Keeps,
  get_node-Keeps, set_cached_vmid-Keeps, check_vm-Keeps,
)

store_ping :
    (vm : ℕ) (f : World → Guest)
    → Avoids is_delete
        (modify (λ w. record w { guests = λ r. if r == vm then f w else w.guests r }))
store_ping vm f =
    Avoids-modify is_delete (λ w. record w { guests = λ r. if r == vm then f w else w.guests r })
      (λ w. refl)

ping-Keeps : (vm : ℕ) → Avoids is_delete (ping vm)
unfolding ping
ping-Keeps vm = search (harmless_rules, store_ping) depth 9

pub start_vm-Keeps :
    (pc : ℕ) (vm_name node_name : Text) → Avoids is_delete (start_vm pc vm_name node_name)
unfolding start_vm
start_vm-Keeps pc vm_name node_name = search (harmless_rules, ping-Keeps) depth 12

pub stop_vm-Keeps :
    (pc : ℕ) (vm_name node_name : Text) → Avoids is_delete (stop_vm pc vm_name node_name)
unfolding stop_vm
stop_vm-Keeps pc vm_name node_name = search harmless_rules depth 12

restart_vm-Keeps :
    (pc : ℕ) (vm_name node_name : Text) → Avoids is_delete (restart_vm pc vm_name node_name)
unfolding restart_vm
restart_vm-Keeps pc vm_name node_name = search harmless_rules depth 12

pub reboot_vm-Keeps :
    (pc : ℕ) (vm_name node_name : Text) → Avoids is_delete (reboot_vm pc vm_name node_name)
unfolding reboot_vm
reboot_vm-Keeps pc vm_name node_name = search harmless_rules depth 14

pub get_vm_state-Keeps :
    (pc : ℕ) (vm_name node_name : Text) → Avoids is_delete (get_vm_state pc vm_name node_name)
unfolding get_vm_state
get_vm_state-Keeps pc vm_name node_name = search harmless_rules depth 12

pub ensure_vm_tag-Keeps :
    (pc : ℕ) (vm_name node_name : Text) → Avoids is_delete (ensure_vm_tag pc vm_name node_name)
unfolding ensure_vm_tag
ensure_vm_tag-Keeps pc vm_name node_name = search harmless_rules depth 14

pub create_vm_from_template-Keeps :
    (pc : ℕ) (vm : VirtualMachine) → Avoids is_delete (create_vm_from_template pc vm)
unfolding create_vm_from_template
create_vm_from_template-Keeps pc vm = search harmless_rules depth 16

get_next_vmid-Keeps : Avoids is_delete get_next_vmid
unfolding get_next_vmid
get_next_vmid-Keeps = search harmless_rules depth 9

pub create_vm_from_scratch-Keeps :
    (pc : ℕ) (vm : VirtualMachine) → Avoids is_delete (create_vm_from_scratch pc vm)
unfolding create_vm_from_scratch
create_vm_from_scratch-Keeps pc vm = search (harmless_rules, get_next_vmid-Keeps) depth 16

pub update_vm-Keeps : (pc : ℕ) (vm : VirtualMachine) → Avoids is_delete (update_vm pc vm)
unfolding update_vm get_cores get_memory
update_vm-Keeps pc vm = search (harmless_rules, restart_vm-Keeps) depth 20
