-- ===== src/Client/Caching.antt =====
-- What the caches of a client promise: pkg/proxmox/connection.go, and `getVMID`, `VMIDsByName` and
-- `DeleteVM` of pkg/proxmox/virtualmachine.go.
use kubemox.Base.{
  List, Option, Option-cases, Text, [], arith, equal_fold, get_elem?, inl, inr, none, refl, some,
  text_eq_refl, ℕ, ◌∷◌, ◌≡◌, ◌≢◌,
}
use kubemox.Client.Cache.{cached_vmid, entry_of, get_node, set_cached_vmid}
use kubemox.Client.Lookup.{find_vm, get_vmid, ids_where, virtual_machines}
use kubemox.World.Ends.{bind-ok}
use kubemox.World.Env.{Listing}
use kubemox.World.Monad.{
  Action, NodeCache, World, crash, gets, modify, ok, on_option, perform, return, ◌>>=◌, ◌>>◌,
}
use mathlib.Core.Option

-- The guest that `getVMID` and `CheckVM` pick is the first of those that `VMIDsByName` lists, so a name
-- is missing for the one if and only if it is missing for the other.
pub find_vm-ids_where :
    (vm_name : Text) (vms : List Listing)
    → Option.map (λ (vm : Listing). vm.vmid) (find_vm vm_name vms)
      ≡ get_elem? (ids_where (λ name. equal_fold name vm_name) vms) 0
unfolding find_vm
find_vm-ids_where vm_name [] = refl
find_vm-ids_where vm_name (vm ∷ vms) = ground (arith, find_vm-ids_where vm_name vms)

abbrev node_at : Option NodeCache → Option (Option Text)
node_at none = none
node_at (some e) = some e.node

-- The node is cached, with what `getNode` returns.
abbrev Knows : ℕ → Text → Option Text → World → Type 0
Knows pc node_name found w = node_at (entry_of pc node_name w) ≡ some found

get_node-Knows :
    (pc : ℕ) (node_name : Text) (w w' : World) (found : Option Text)
    → get_node pc node_name w ≡ ok found w'
    → Knows pc node_name found w'
unfolding get_node perform gets modify return on_option ◌>>=◌
get_node-Knows pc node_name w w' found h = ground (arith, text_eq_refl node_name)

get_node-hit :
    (pc : ℕ) (node_name : Text) (w : World) (found : Option Text)
    → Knows pc node_name found w
    → get_node pc node_name w ≡ ok found w
unfolding get_node gets return on_option ◌>>=◌
get_node-hit pc node_name w found h = ground (arith, h)

virtual_machines-Knows :
    (pc : ℕ) (node_name : Text) (found on : Option Text) (w w' : World) (vms : List Listing)
    → Knows pc node_name found w
    → virtual_machines on w ≡ ok vms w'
    → Knows pc node_name found w'
unfolding virtual_machines perform gets on_option crash ◌>>=◌
virtual_machines-Knows pc node_name found on w w' vms k h = ground arith

set_cached_vmid-Knows :
    (pc : ℕ) (node_name vm_name : Text) (vmid : ℕ) (found : Option Text) (w w' : World)
    → Knows pc node_name found w
    → set_cached_vmid pc node_name vm_name vmid w ≡ ok tt w'
    → Knows pc node_name found w'
unfolding set_cached_vmid modify gets on_option crash ◌>>=◌
set_cached_vmid-Knows pc node_name vm_name vmid found w w' k h =
    ground (arith, text_eq_refl node_name)

-- A VMID that has been written is read back.
cached-set_cached_vmid :
    (pc : ℕ) (node_name vm_name : Text) (vmid : ℕ) (w w' : World)
    → set_cached_vmid pc node_name vm_name vmid w ≡ ok tt w'
    → cached_vmid pc node_name vm_name w' ≡ some vmid
unfolding set_cached_vmid cached_vmid modify gets on_option crash ◌>>=◌
cached-set_cached_vmid pc node_name vm_name vmid w w' h =
    ground (arith, text_eq_refl node_name, text_eq_refl vm_name)

-- The lines of `getVMID` behind the listing, and those behind `getNode`.
abbrev pick : ℕ → Text → Text → Option Listing → Action ℕ
pick pc vm_name node_name hit =
    on_option hit (return 0) λ vm. do set_cached_vmid pc node_name vm_name vm.vmid; return vm.vmid

abbrev picked : ℕ → Text → Text → List Listing → Action ℕ
picked pc vm_name node_name vms = pick pc vm_name node_name (find_vm vm_name vms)

abbrev read_vmid : ℕ → Text → Text → Option Text → Action ℕ
read_vmid pc vm_name node_name found = do
  cached ← gets (cached_vmid pc node_name vm_name)
  on_option cached
      (do
        vm_list ← virtual_machines found
        on_option (find_vm vm_name vm_list) (return 0)
            λ vm. do set_cached_vmid pc node_name vm_name vm.vmid; return vm.vmid)
      return

get_vmid-hit :
    (pc : ℕ) (vm_name node_name : Text) (w : World) (vmid : ℕ) (found : Option Text)
    → Knows pc node_name found w
    → cached_vmid pc node_name vm_name w ≡ some vmid
    → get_vmid pc vm_name node_name w ≡ ok vmid w
unfolding get_vmid gets on_option return ◌>>=◌
get_vmid-hit pc vm_name node_name w vmid found h k =
    ground (arith, get_node-hit pc node_name w found h)

picked-Knows :
    (pc : ℕ) (vm_name node_name : Text) (found : Option Text) (w w' : World) (vmid : ℕ)
    (hit : Option Listing)
    → Knows pc node_name found w
    → pick pc vm_name node_name hit w ≡ ok vmid w'
    → vmid ≢ 0
    → Knows pc node_name found w' × (cached_vmid pc node_name vm_name w' ≡ some vmid)
unfolding on_option return
picked-Knows pc vm_name node_name found w w' vmid none h k l = ground arith
picked-Knows pc vm_name node_name found w w' vmid (some vm) h k l =
    let p = bind-ok (set_cached_vmid pc node_name vm_name vm.vmid) (λ _. return vm.vmid) w k in
    let written : set_cached_vmid pc node_name vm_name vmid w ≡ ok tt w' =
      ground (arith, p.2, p.3) in
    (
      set_cached_vmid-Knows pc node_name vm_name vmid found w w' h written,
      cached-set_cached_vmid pc node_name vm_name vmid w w' written,
    )

read_vmid-Knows :
    (pc : ℕ) (vm_name node_name : Text) (found : Option Text) (w w' : World) (vmid : ℕ)
    → Knows pc node_name found w
    → read_vmid pc vm_name node_name found w ≡ ok vmid w'
    → vmid ≢ 0
    → Knows pc node_name found w' × (cached_vmid pc node_name vm_name w' ≡ some vmid)
unfolding gets on_option return ◌>>=◌
read_vmid-Knows pc vm_name node_name found w w' vmid k h l =
    elim (Option-cases (cached_vmid pc node_name vm_name w)) [
      | inl e ↦
          let missed : (virtual_machines found >>= picked pc vm_name node_name) w ≡ ok vmid w' =
            ground (arith, e, h) in
          let p = bind-ok (virtual_machines found) (picked pc vm_name node_name) w missed in
          picked-Knows pc vm_name node_name found p.1 w' vmid (find_vm vm_name p.0)
            (virtual_machines-Knows pc node_name found found w p.1 p.0 k p.2) p.3 l
      | inr e ↦ ground (arith, e, k)
    ]

-- Reading the VMID again: where `getVMID` returned a VMID that is not 0, a second call returns it too
-- and changes nothing, so it makes no call to Proxmox.
pub get_vmid-again :
    (pc : ℕ) (vm_name node_name : Text) (w w' : World) (vmid : ℕ)
    → get_vmid pc vm_name node_name w ≡ ok vmid w'
    → vmid ≢ 0
    → get_vmid pc vm_name node_name w' ≡ ok vmid w'
unfolding get_vmid
get_vmid-again pc vm_name node_name w w' vmid h k =
    let p = bind-ok (get_node pc node_name) (read_vmid pc vm_name node_name) w h in
    let q =
      read_vmid-Knows pc vm_name node_name p.0 p.1 w' vmid
        (get_node-Knows pc node_name w p.1 p.0 p.2) p.3 k in
    get_vmid-hit pc vm_name node_name w' vmid p.0 q.0 q.1
