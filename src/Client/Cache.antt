-- ===== src/Client/Cache.antt =====
-- The caches of a client: `getNode`, `setCachedVMID`, `setCachedVM` and `getCachedVM` of
-- pkg/proxmox/connection.go, and pkg/proxmox/container_cache_methods.go. A function holds its mutex
-- from its first line to its last, so each is one step.
use kubemox.Base.{Option, Text, if◌then◌else◌, none, some, text_eq, ℕ, ◌==◌}
use kubemox.World.Call.{Call}
use kubemox.World.Monad.{
  Action, NodeCache, World, crash, gets, modify, on_option, perform, return, ◌>>=◌, ◌>>◌,
}

-- A write to a map keyed by texts, and by numbers.
abbrev pub set_text : {V : Type 0} → (Text → Option V) → Text → Option V → Text → Option V
set_text f k v j = if text_eq k j then v else f j

abbrev pub set_number : {V : Type 0} → (ℕ → Option V) → ℕ → Option V → ℕ → Option V
set_number f k v j = if k == j then v else f j

abbrev pub no_entries : {K V : Type 0} → K → Option V
no_entries _ = none

-- `pc.nodesCache[nodeName] = entry`
abbrev pub set_entry : ℕ → Text → NodeCache → World → World
set_entry pc node_name entry w = record w {
  caches = λ p. if p == pc then set_text (w.caches p) node_name (some entry) else w.caches p;
}

abbrev pub entry_of : ℕ → Text → World → Option NodeCache
entry_of pc node_name w = w.caches pc node_name

-- `getNode`; the node is a pointer, which may be nil. The Proxmox client behind it is not nil.
unfoldable pub get_node : ℕ → Text → Action (Option Text)
get_node pc node_name = do
  cached ← gets (entry_of pc node_name)
  on_option cached
      (do
        perform (Call.get_node node_name)
        modify (
            set_entry pc node_name (record {
              node = some node_name;
              vms = some no_entries;
              vm_objs = none;
              containers = some no_entries;
              container_objs = none;
            }))
        return (some node_name))
      (λ entry. return entry.node)

-- A write to one of the maps of an entry that the caller has made sure of.
abbrev put_vmid : ℕ → Text → Text → ℕ → NodeCache → Action (Unit {0})
put_vmid pc node_name vm_name vmid entry = on_option entry.vms crash (λ vms.
    modify
      (set_entry pc node_name (record entry { vms = some (set_text vms vm_name (some vmid)) })))

-- `setCachedVMID`
unfoldable pub set_cached_vmid : ℕ → Text → Text → ℕ → Action (Unit {0})
set_cached_vmid pc node_name vm_name vmid = do
  cached ← gets (entry_of pc node_name)
  on_option cached
      (put_vmid pc node_name vm_name vmid (record {
        node = none;
        vms = some no_entries;
        vm_objs = some no_entries;
        containers = none;
        container_objs = none;
      }))
      (put_vmid pc node_name vm_name vmid)

abbrev put_vm : ℕ → Text → ℕ → ℕ → NodeCache → Action (Unit {0})
put_vm pc node_name vmid vm entry = on_option entry.vm_objs crash (λ objs.
    modify
      (set_entry pc node_name (record entry { vm_objs = some (set_number objs vmid (some vm)) })))

-- `if vmObjs == nil { vmObjs = make(…) }`
abbrev or_empty : {K V : Type 0} → Option (K → Option V) → Option (K → Option V)
or_empty none = some no_entries
or_empty (some m) = some m

-- `setCachedVM`
unfoldable pub set_cached_vm : ℕ → Text → ℕ → ℕ → Action (Unit {0})
set_cached_vm pc node_name vmid vm = do
  cached ← gets (entry_of pc node_name)
  on_option cached
      (put_vm pc node_name vmid vm (record {
        node = none;
        vms = some no_entries;
        vm_objs = some no_entries;
        containers = none;
        container_objs = none;
      }))
      (λ entry. put_vm pc node_name vmid vm (record entry { vm_objs = or_empty entry.vm_objs }))

-- A read of a map that may be nil, in an entry that may be missing.
abbrev pub read_map : {K V : Type 0} → Option (K → Option V) → K → Option V
read_map none k = none
read_map (some m) k = m k

abbrev pub vms_of : Option NodeCache → Option (Text → Option ℕ)
vms_of none = none
vms_of (some entry) = entry.vms

abbrev pub vm_objs_of : Option NodeCache → Option (ℕ → Option ℕ)
vm_objs_of none = none
vm_objs_of (some entry) = entry.vm_objs

abbrev pub containers_of : Option NodeCache → Option (Text → Option ℕ)
containers_of none = none
containers_of (some entry) = entry.containers

abbrev pub container_objs_of : Option NodeCache → Option (ℕ → Option ℕ)
container_objs_of none = none
container_objs_of (some entry) = entry.container_objs

-- `pc.nodesCache[nodeName].vms[vmName]`
unfoldable pub cached_vmid : ℕ → Text → Text → World → Option ℕ
cached_vmid pc node_name vm_name w = read_map (vms_of (entry_of pc node_name w)) vm_name

-- `getCachedVM`: a pointer, or nil.
unfoldable pub get_cached_vm : ℕ → Text → ℕ → Action (Option ℕ)
get_cached_vm pc node_name vmid = gets (λ w. read_map (vm_objs_of (entry_of pc node_name w)) vmid)

abbrev put_container_id : ℕ → Text → Text → ℕ → NodeCache → Action (Unit {0})
put_container_id pc node_name container_name container_id entry =
    on_option entry.containers crash (λ containers. modify (
      set_entry pc node_name (record entry {
        containers = some (set_text containers container_name (some container_id));
      })))

-- `setCachedContainerID`
unfoldable pub set_cached_container_id : ℕ → Text → Text → ℕ → Action (Unit {0})
set_cached_container_id pc node_name container_name container_id = do
  cached ← gets (entry_of pc node_name)
  on_option cached
      (put_container_id pc node_name container_name container_id (record {
        node = none;
        vms = some no_entries;
        vm_objs = some no_entries;
        containers = some no_entries;
        container_objs = none;
      }))
      (λ entry.
        put_container_id pc node_name container_name container_id
          (record entry { containers = or_empty entry.containers }))

abbrev put_container : ℕ → Text → ℕ → ℕ → NodeCache → Action (Unit {0})
put_container pc node_name container_id container entry =
    on_option entry.container_objs crash (λ objs. modify (
      set_entry pc node_name
        (record entry { container_objs = some (set_number objs container_id (some container)) })))

-- `setCachedContainer`
unfoldable pub set_cached_container : ℕ → Text → ℕ → ℕ → Action (Unit {0})
set_cached_container pc node_name container_id container = do
  cached ← gets (entry_of pc node_name)
  on_option cached
      (put_container pc node_name container_id container (record {
        node = none;
        vms = some no_entries;
        vm_objs = some no_entries;
        containers = some no_entries;
        container_objs = some no_entries;
      }))
      (λ entry.
        put_container pc node_name container_id container
          (record entry { container_objs = or_empty entry.container_objs }))

-- `getCachedContainer`, `getCachedContainerID`
unfoldable pub get_cached_container : ℕ → Text → ℕ → Action (Option ℕ)
get_cached_container pc node_name container_id =
    gets (λ w. read_map (container_objs_of (entry_of pc node_name w)) container_id)

unfoldable pub get_cached_container_id : ℕ → Text → Text → Action (Option ℕ)
get_cached_container_id pc node_name container_name =
    gets (λ w. read_map (containers_of (entry_of pc node_name w)) container_name)

-- Go's `delete` on a map that may be nil.
abbrev pub delete_text : {V : Type 0} → Option (Text → Option V) → Text → Option (Text → Option V)
delete_text none k = none
delete_text (some m) k = some (set_text m k none)

abbrev pub delete_number : {V : Type 0} → Option (ℕ → Option V) → ℕ → Option (ℕ → Option V)
delete_number none k = none
delete_number (some m) k = some (set_number m k none)

-- A change of an entry, where there is one.
abbrev pub update_entry : ℕ → Text → (NodeCache → NodeCache) → Action (Unit {0})
update_entry pc node_name f = do
  cached ← gets (entry_of pc node_name)
  on_option cached (return tt) (λ entry. modify (set_entry pc node_name (f entry)))

-- `deleteCachedContainer`, `deleteCachedContainerObject`
unfoldable pub delete_cached_container : ℕ → Text → Text → Action (Unit {0})
delete_cached_container pc node_name container_name =
    update_entry pc node_name
      (λ entry. record entry { containers = delete_text entry.containers container_name })

unfoldable pub delete_cached_container_object : ℕ → Text → ℕ → Action (Unit {0})
delete_cached_container_object pc node_name container_id =
    update_entry pc node_name
      (λ entry. record entry { container_objs = delete_number entry.container_objs container_id })

-- The two deletes under `vmIDMutex` at the end of `DeleteVM`.
unfoldable pub forget_vm : ℕ → Text → Text → ℕ → Action (Unit {0})
forget_vm pc node_name vm_name vmid = update_entry pc node_name (λ entry. record entry {
  vms = delete_text entry.vms vm_name;
  vm_objs = delete_number entry.vm_objs vmid;
})
