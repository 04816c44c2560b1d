-- ===== src/Client/Network.antt =====
-- The networks of a guest: `GetNetworkConfiguration`, `parseNetworkConfiguration` and
-- `configureVirtualMachineNetwork` of pkg/proxmox/virtualmachine.go.
use kubemox.Api.{VirtualMachine, VirtualMachineNetwork}
use kubemox.Base.{
  Bool, List, Text, [], bytes, get_elem?, if◌then◌else◌, itoa, length, not, some, split, suc,
  text_eq, zero, ℕ, ◌&&◌, ◌++◌, ◌+◌, ◌-◌, ◌==◌, ◌∷◌,
}
use kubemox.Client.Create.{get_networks, or_nothing}
use kubemox.Client.Lookup.{get_virtual_machine, guest_at}
use kubemox.Client.Options.{delete_virtual_machine_option, update_network_config}
use kubemox.World.Error.{other, task_error}
use kubemox.World.Monad.{Action, crash, fail, gets, on_option, return, wait_for, ◌>>=◌, ◌>>◌}

-- One configuration, such as "virtio=02:24:11:2E:05:4A,bridge=vmbr0". `strings.Split` returns at
-- least one part, so only the second part's value can be missing, which panics.
unfoldable pub parse_network : Text → Action VirtualMachineNetwork
parse_network network =
    let parts = split b',' network in
    on_option (get_elem? parts 1)
      (fail (other (bytes "invalid format for network configuration: " ++ network)))
      λ second. on_option (get_elem? parts 0) crash λ first.
        on_option (get_elem? (split b'=' first) 0) crash λ model.
          on_option (get_elem? (split b'=' second) 1) crash
            λ bridge. return (record { model = model; bridge = bridge })

-- `parseNetworkConfiguration`
unfoldable pub parse_network_configuration :
    List (Text × Text) → Action (List VirtualMachineNetwork)
parse_network_configuration [] = return []
parse_network_configuration ((_, network) ∷ networks) = do
  parsed ← parse_network network
  others ← parse_network_configuration networks
  return (parsed ∷ others)

-- The deletion of one network, before the rest.
unfoldable pub remove_network : ℕ → VirtualMachine → ℕ → Action (Unit {0}) → Action (Unit {0})
remove_network pc vm i rest = do
  failed ← delete_virtual_machine_option pc vm (bytes "net" ++ itoa i)
  on_option failed
      (do end ← wait_for 5 3; if not end.status then fail (task_error end.exit_status) else rest)
      fail

-- The networks from index `i` on are deleted, `n` of them.
unfoldable pub remove_networks : ℕ → VirtualMachine → ℕ → ℕ → Action (Unit {0})
remove_networks pc vm i zero = return tt
remove_networks pc vm i (suc n) =
    let rest = remove_networks pc vm (i + 1) n in remove_network pc vm i rest

-- The networks from index `i` on are set, `n` of them.
unfoldable pub add_networks :
    ℕ → VirtualMachine → List VirtualMachineNetwork → ℕ → ℕ → Action (Unit {0})
add_networks pc vm networks i zero = return tt
add_networks pc vm networks i (suc n) =
    let rest = add_networks pc vm networks (i + 1) n in
    update_network_config pc vm i networks >> rest

abbrev pub same_network : VirtualMachineNetwork → VirtualMachineNetwork → Bool
same_network a b = text_eq a.model b.model && text_eq a.bridge b.bridge

-- A round of the last loop, before the rest. Where some network is desired, `networks[i]`
-- is read whether or not the index is in range.
unfoldable pub change_network :
    ℕ
    → VirtualMachine
    → List VirtualMachineNetwork
    → ℕ
    → VirtualMachineNetwork
    → Action (Unit {0})
    → Action (Unit {0})
change_network pc vm networks i actual rest =
    if length networks == 0
    then rest
    else on_option (get_elem? networks i) crash λ desired.
      if same_network desired actual then rest else (update_network_config pc vm i networks >> rest)

-- The last loop, over the networks that the guest has.
unfoldable pub change_networks :
    ℕ
    → VirtualMachine
    → List VirtualMachineNetwork
    → ℕ
    → List VirtualMachineNetwork
    → Action (Unit {0})
change_networks pc vm networks i [] = return tt
change_networks pc vm networks i (actual ∷ parsed) =
    let rest = change_networks pc vm networks (i + 1) parsed in
    change_network pc vm networks i actual rest

-- `configureVirtualMachineNetwork`
unfoldable pub configure_virtual_machine_network : ℕ → VirtualMachine → Action (Unit {0})
configure_virtual_machine_network pc vm = do
  desired ← get_networks vm
  let networks = or_nothing desired
  p ← get_virtual_machine pc vm.metadata.name vm.spec.node_name
  guest ← guest_at p
  parsed ← parse_network_configuration guest.vm_config.nets
  equal ← gets (λ w. w.env.networks_equal desired (some parsed))
  if equal then return tt else (do
    remove_networks pc vm (length networks) (length parsed - length networks)
    add_networks pc vm networks (length parsed) (length networks - length parsed)
    change_networks pc vm networks 0 parsed)
