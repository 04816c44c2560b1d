-- ===== src/Client/Quiet.antt =====
-- The lookups of the client only read: for every property of calls that no read has, no lookup
-- makes such a call.
use kubemox.Base.{Bool, Option, Text, false, if◌then◌else◌, refl, ℕ, ◌+◌, ◌==◌, ◌≡◌}
use kubemox.Client.Cache.{
  forget_vm, get_cached_vm, get_node, set_cached_vm, set_cached_vmid, set_entry,
}
use kubemox.Client.Lookup.{
  check_vm, containers, get_virtual_machine, get_vmid, virtual_machine, virtual_machines,
}
use kubemox.World.Call.{Call, changes_guest}
use kubemox.World.Env.{Guest}
use kubemox.World.Keeps.{keeps_rules}
use kubemox.World.Monad.{NodeCache, World, modify, perform, wait_for}
use kubemox.World.Trace.{Avoids, Avoids-crash, Avoids-modify, Avoids-perform, Avoids-wait_for}

module _ (q : Call → Bool) (reads : (c : Call) → changes_guest c ≡ false → q c ≡ false) where
  perform_read : (c : Call) → changes_guest c ≡ false → Avoids q (perform c)
  perform_read c h = Avoids-perform q c (reads c h)

  pub wait_for-Avoids : (times steps : ℕ) → Avoids q (wait_for times steps)
  wait_for-Avoids times steps =
      Avoids-wait_for q times steps (reads (Call.wait_task times steps) refl)

  store_entry :
      (pc : ℕ) (node_name : Text) (entry : NodeCache)
      → Avoids q (modify (set_entry pc node_name entry))
  store_entry pc node_name entry = Avoids-modify q (set_entry pc node_name entry) (λ w. refl)

  pub get_node-Avoids : (pc : ℕ) (node_name : Text) → Avoids q (get_node pc node_name)
  unfolding get_node
  get_node-Avoids pc node_name = search (keeps_rules, perform_read, store_entry)

  pub set_cached_vmid-Avoids :
      (pc : ℕ) (node_name vm_name : Text) (vmid : ℕ)
      → Avoids q (set_cached_vmid pc node_name vm_name vmid)
  unfolding set_cached_vmid
  set_cached_vmid-Avoids pc node_name vm_name vmid =
      search (keeps_rules, store_entry, Avoids-crash q)

  pub set_cached_vm-Avoids :
      (pc : ℕ) (node_name : Text) (vmid vm : ℕ) → Avoids q (set_cached_vm pc node_name vmid vm)
  unfolding set_cached_vm
  set_cached_vm-Avoids pc node_name vmid vm = search (keeps_rules, store_entry, Avoids-crash q)

  pub forget_vm-Avoids :
      (pc : ℕ) (node_name vm_name : Text) (vmid : ℕ)
      → Avoids q (forget_vm pc node_name vm_name vmid)
  unfolding forget_vm
  forget_vm-Avoids pc node_name vm_name vmid = search (keeps_rules, store_entry)

  virtual_machines-Avoids : (node : Option Text) → Avoids q (virtual_machines node)
  unfolding virtual_machines
  virtual_machines-Avoids n = search (keeps_rules, perform_read, Avoids-crash q)

  containers-Avoids : (node : Option Text) → Avoids q (containers node)
  unfolding containers
  containers-Avoids n = search (keeps_rules, perform_read, Avoids-crash q)

  store_guest :
      (p : ℕ) (f : World → Guest)
      → Avoids q (
          modify (λ w. record w {
            guests = λ r. if r == p then f w else w.guests r;
            next_guest = p + 1;
          }))
  store_guest p f =
      Avoids-modify q
        (λ w. record w { guests = λ r. if r == p then f w else w.guests r; next_guest = p + 1 })
        (λ w. refl)

  virtual_machine-Avoids : (node : Option Text) (vmid : ℕ) → Avoids q (virtual_machine node vmid)
  unfolding virtual_machine
  virtual_machine-Avoids n vmid =
      search (keeps_rules, perform_read, store_guest, Avoids-crash q) depth 9

  pub get_vmid-Avoids :
      (pc : ℕ) (vm_name node_name : Text) → Avoids q (get_vmid pc vm_name node_name)
  unfolding get_vmid
  get_vmid-Avoids pc vm_name node_name =
      search (keeps_rules, get_node-Avoids, virtual_machines-Avoids, set_cached_vmid-Avoids) depth 9

  pub check_vm-Avoids :
      (pc : ℕ) (vm_name node_name : Text) → Avoids q (check_vm pc vm_name node_name)
  unfolding check_vm
  check_vm-Avoids pc vm_name node_name =
      search (keeps_rules, get_node-Avoids, virtual_machines-Avoids, set_cached_vmid-Avoids) depth 9

  pub get_virtual_machine-Avoids :
      (pc : ℕ) (vm_name node_name : Text) → Avoids q (get_virtual_machine pc vm_name node_name)
  unfolding get_virtual_machine get_cached_vm
  get_virtual_machine-Avoids pc vm_name node_name =
      search
        (
          keeps_rules, get_node-Avoids, get_vmid-Avoids, virtual_machine-Avoids,
          set_cached_vm-Avoids,
        )
        depth 9
