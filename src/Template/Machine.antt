-- ===== src/Template/Machine.antt =====
-- The guest of a VirtualMachineTemplate: the operations of
-- pkg/proxmox/virtualmachinetemplate.go. Where the code logs the error of `getVirtualMachine` and goes on,
-- the next line dereferences a nil pointer.
use kubemox.Api.{CloudInitConfig, VirtualMachineConfig, VirtualMachineTemplate}
use kubemox.Base.{
  Bool, List, Option, Text, [], bytes, explode, false, if◌then◌else◌, is_nil, none, not, some,
  split, ℕ, ◌++◌, ◌==◌, ◌||◌, ◌∷◌,
}
use kubemox.Client.Cache.{get_node}
use kubemox.Client.Create.{get_next_vmid}
use kubemox.Client.Lookup.{get_virtual_machine, guest_at, on_node}
use kubemox.Client.Options.{must_get}
use kubemox.Client.Power.{on_guest}
use kubemox.Template.CloudInit.{cloud_init_compare_options, construct_cloud_init_options}
use kubemox.Template.IpConfigs.{ip_config_parser}
use kubemox.World.Call.{Call, OptionValue, flag, number, text}
use kubemox.World.Env.{VmConfig}
use kubemox.World.Error.{message, wrap}
use kubemox.World.Monad.{
  Action, crash, fail, finish_task, gets, handle, on_option, perform, return, wait_for, ◌>>=◌, ◌>>◌,
}

-- `GetCloudInitConfig`
unfoldable pub get_cloud_init_config : ℕ → Text → Text → Action CloudInitConfig
get_cloud_init_config pc vm_name node_name = must_get pc vm_name node_name λ p. do
  guest ← guest_at p
  let config = guest.vm_config
  return (record {
    user = config.ci_user;
    password = none;
    password_from = none;
    dns_domain = config.searchdomain;
    dns_servers = split b',' config.nameserver;
    ssh_keys = explode config.ssh_keys;
    upgrade_packages = elim config.ci_upgrade [ none ↦ false | some b ↦ b ];
    ip_config = some (ip_config_parser config.ip_config0);
    custom = none;
  })

-- `CheckVirtualMachineTemplateCIConfig`: `cmp.Equal` is given a pointer and a value.
unfoldable pub check_template_ci_config : ℕ → VirtualMachineTemplate → Action Bool
check_template_ci_config pc t = on_option t.spec.cloud_init_config (return false) λ desired. do
  actual ← get_cloud_init_config pc t.spec.name t.spec.node_name
  env ← gets (λ w. w.env)
  return (not (env.pointer_equal (cloud_init_compare_options desired) desired actual))

-- `derefInt`
abbrev deref_int : Option ℕ → ℕ
deref_int none = 0
deref_int (some n) = n

-- The comparison of two `VirtualMachineComparison`.
unfoldable pub machine_differs : VmConfig → VirtualMachineConfig → Bool
machine_differs actual desired =
    not (deref_int actual.cores == desired.cores)
    || (not (deref_int actual.sockets == desired.sockets) || not (actual.memory == desired.memory))

-- `CheckVirtualMachineTemplateDelta`
unfoldable pub check_template_delta : ℕ → VirtualMachineTemplate → Action Bool
check_template_delta pc t = do
  p ← get_virtual_machine pc t.spec.name t.spec.node_name
  guest ← guest_at p
  cloud_init_diff ← handle (check_template_ci_config pc t) (λ _. return false) return
  return (machine_differs guest.vm_config t.spec.virtual_machine_config || cloud_init_diff)

-- `ConvertVMToTemplate`; a wait that does not complete is only logged.
unfoldable pub convert_vm_to_template : ℕ → Text → Text → Action (Unit {0})
convert_vm_to_template pc vm_name node_name = must_get pc vm_name node_name λ p. do
  guest ← guest_at p
  if guest.template
      then return tt
      else (on_guest p Call.convert_to_template >> wait_for 5 3 >> return tt)

abbrev empty_cloud_init_options : List (Text × OptionValue)
empty_cloud_init_options =
    (bytes "ciuser", text [])
    ∷ (bytes "cipassword", text [])
    ∷ (bytes "searchdomain", text [])
    ∷ (bytes "nameserver", text [])
    ∷ (bytes "sshkeys", text [])
    ∷ (bytes "ciupgrade", flag false)
    ∷ (bytes "ipconfig0", text [])
    ∷ (bytes "cicustom", text [])
    ∷ []

-- `EmptyCloudInitConfig`
unfoldable pub empty_cloud_init_config : ℕ → Text → Text → Action (Unit {0})
empty_cloud_init_config pc vm_name node_name = must_get pc vm_name node_name λ p.
    on_guest p (λ vmid. Call.configure vmid empty_cloud_init_options) >> wait_for 3 10 >> return tt

-- The lines of `SetCloudInitConfig` for a configuration that differs. An error of the emptying is
-- logged, and of the two waits the outcome is.
unfoldable pub write_cloud_init_config :
    ℕ → Text → Text → ℕ → Text → CloudInitConfig → Action (Unit {0})
write_cloud_init_config pc vm_name node_name p namespace ci_config = do
  options ← construct_cloud_init_options ci_config namespace
  handle (empty_cloud_init_config pc vm_name node_name) (λ _. return tt) return
  on_guest p (λ vmid. Call.configure vmid options)
  wait_for 3 10
  on_guest p (λ vmid. Call.config vmid (bytes "ide2") (bytes "local-lvm:cloudinit"))
  wait_for 3 10
  return tt

-- `SetCloudInitConfig`; where the first lookup fails and the second does not, the call on the nil pointer
-- is the panic.
unfoldable pub set_cloud_init_config : ℕ → Text → Text → Text → CloudInitConfig → Action (Unit {0})
set_cloud_init_config pc vm_name node_name namespace ci_config = do
  p ← handle (get_virtual_machine pc vm_name node_name) (λ _. return none) (λ p. return (some p))
  actual ← get_cloud_init_config pc vm_name node_name
  env ← gets (λ w. w.env)
  if not (env.cloud_init_equal (cloud_init_compare_options ci_config) ci_config actual)
      then on_option p
          (construct_cloud_init_options ci_config namespace
            >> handle (empty_cloud_init_config pc vm_name node_name) (λ _. return tt) return
            >> crash)
          (λ p. write_cloud_init_config pc vm_name node_name p namespace ci_config)
      else return tt

-- `GetStorage` of pkg/proxmox/storage.go: the path of the storage.
unfoldable pub get_storage : Text → Action Text
get_storage storage_name = do
  history ← gets (λ w. w.trace)
  handle (perform (Call.cluster_storage storage_name))
      (λ e.
        fail (wrap (bytes "unable to get storage " ++ storage_name ++ bytes ": " ++ message e) e))
      (λ _. gets (λ w. w.env.storage_path history storage_name))

-- `ImportDiskToVM`
unfoldable pub import_disk_to_vm : ℕ → Text → Text → Text → Text → Action (Unit {0})
import_disk_to_vm pc vm_name node_name disk_name storage_name = do
  p ← get_virtual_machine pc vm_name node_name
  guest ← guest_at p
  if not (is_nil guest.vm_config.scsi0) then return tt else (do
    path ← get_storage (bytes "local")
    on_guest p (λ vmid.
        Call.config vmid (bytes "scsi0")
          (storage_name ++ bytes ":0,import-from=" ++ path ++ bytes "/template/iso/" ++ disk_name))
    end ← wait_for 10 10
    finish_task end (return tt))

-- `SetBootOrder`
unfoldable pub set_boot_order : ℕ → Text → Text → Action (Unit {0})
set_boot_order pc vm_name node_name = must_get pc vm_name node_name λ p.
    on_guest p (λ vmid. Call.config vmid (bytes "boot") (bytes "order=scsi0"))
    >> wait_for 5 3
    >> return tt

-- `IsVMTemplate`
unfoldable pub is_vm_template : ℕ → Text → Text → Action Bool
is_vm_template pc vm_name node_name =
    must_get pc vm_name node_name λ p. do guest ← guest_at p; return guest.template

-- `VMOptions` of `CreateVMTemplate`
unfoldable pub template_options : VirtualMachineTemplate → List (Text × OptionValue)
template_options t =
    let config = t.spec.virtual_machine_config in
    (bytes "sockets", number config.sockets)
    ∷ (bytes "cores", number config.cores)
    ∷ (bytes "memory", number config.memory)
    ∷ (bytes "name", text t.spec.name)
    ∷ (bytes "net0", text (config.network.model ++ bytes ",bridge=" ++ config.network.bridge))
    ∷ (bytes "scsihw", text (bytes "virtio-scsi-pci"))
    ∷ []

-- `CreateVMTemplate`
unfoldable pub create_vm_template : ℕ → VirtualMachineTemplate → Action (Unit {0})
create_vm_template pc t = do
  node ← get_node pc t.spec.node_name
  vmid ← get_next_vmid
  on_node node (λ n. perform (Call.new_vm n vmid (template_options t)))

-- `AddTagToVMTemplate`
unfoldable pub add_tag_to_vm_template : ℕ → VirtualMachineTemplate → Action (Unit {0})
add_tag_to_vm_template pc t = do
  p ← get_virtual_machine pc t.spec.name t.spec.node_name
  tag ← gets (λ w. w.env.virtual_machine_template_tag)
  on_guest p (λ vmid. Call.add_tag vmid tag)

-- The options that `UpdateVirtualMachineTemplate` sets.
abbrev size_options : VirtualMachineConfig → List (Text × OptionValue)
size_options config =
    (bytes "cores", number config.cores)
    ∷ (bytes "sockets", number config.sockets)
    ∷ (bytes "memory", number config.memory)
    ∷ []

-- `UpdateVirtualMachineTemplate`; errors of the cloud-init configuration are dropped or logged.
unfoldable pub update_virtual_machine_template : ℕ → VirtualMachineTemplate → Action (Unit {0})
update_virtual_machine_template pc t = do
  p ← get_virtual_machine pc t.spec.name t.spec.node_name
  on_guest p (λ vmid. Call.configure vmid (size_options t.spec.virtual_machine_config))
  wait_for 5 3
  reconfigure ← handle (check_template_ci_config pc t) (λ _. return false) return
  if not reconfigure
      then return tt
      else on_option t.spec.cloud_init_config crash λ config.
        handle (set_cloud_init_config pc t.spec.name t.spec.node_name t.metadata.namespace config)
          (λ _. return tt) return
