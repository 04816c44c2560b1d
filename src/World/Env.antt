-- ===== src/World/Env.antt =====
-- What answers the program: Proxmox, the Kubernetes API server and the libraries that the code
-- calls. Each answer may depend on all calls made before, so nothing is assumed of the order or of
-- the outcome of calls. The last fields are functions of controller-runtime and apimachinery.
use kubemox.Api.{
  CloudInitConfig, Condition, Container, ObjectMeta, StorageDownloadUrl, VirtualMachine,
  VirtualMachineNetwork, VirtualMachineSet, VirtualMachineSnapshot, VirtualMachineSnapshotPolicy,
  VirtualMachineTemplate,
}
use kubemox.Base.{Bool, List, Option, Text, ℕ}
use kubemox.World.Call.{Call, Event}
use kubemox.World.Error.{Error}

-- `VirtualMachineConfig` of go-proxmox: the options that the code reads. `disks` is what
-- `MergeDisks` returns; a Go map is a list of its entries, in the order in which `range` meets them.
pub record VmConfig : Type 0 where
  pub cores : Option ℕ
  pub sockets : Option ℕ
  pub memory : ℕ
  pub nets : List (Text × Text)
  pub disks : List (Text × Text)
  pub host_pcis : List (Text × Text)
  -- `IDEs["ide2"]`, which is "" where there is no such drive
  pub ide2 : Text
  -- `SCSIs["scsi0"]` and `IPConfigs["ipconfig0"]`, and the options of cloud-init
  pub scsi0 : Text
  pub ip_config0 : Text
  pub ci_user : Text
  pub searchdomain : Text
  pub nameserver : Text
  pub ssh_keys : Text
  pub ci_upgrade : Option Bool

-- `proxmox.VirtualMachine`
pub record Guest : Type 0 where
  pub vmid : ℕ
  pub status : Text
  pub node : Text
  pub uptime : ℕ
  pub cpus : ℕ
  pub max_mem : ℕ
  pub lock : Text
  pub template : Bool
  pub vm_config : VmConfig

-- `ContainerConfig` of go-proxmox: the options that the code reads.
pub record LxcConfig : Type 0 where
  pub hostname : Text
  pub cores : ℕ
  pub memory : Option ℕ
  pub lock : Text
  pub tags : Text

-- `proxmox.Container`; a nil `ContainerConfig` is `none`.
pub record Lxc : Type 0 where
  pub vmid : ℕ
  pub name : Text
  pub status : Text
  pub cpus : ℕ
  pub max_mem : ℕ
  pub container_config : Option LxcConfig

-- An entry of `node.VirtualMachines` or `node.Containers`.
pub record Listing : Type 0 where
  pub name : Text
  pub vmid : ℕ

-- `task.WaitForCompleteStatus` and `task.ExitStatus`.
pub record TaskEnd : Type 0 where
  pub status : Bool
  pub completed : Bool
  pub error : Option Error
  pub exit_status : Text

-- The `SecretKeyReference` of a ProxmoxConnection, and corev1.Secret.
pub record SecretKeyReference : Type 0 where
  pub namespace : Text
  pub name : Text
  pub key : Text

pub record Secret : Type 0 where
  pub namespace : Text
  pub name : Text
  pub resource_version : Text
  pub contents : Text → Option Text

-- ProxmoxConnection: what `NewProxmoxClientFromRef` and `ResolveCredentials` read.
pub record Connection : Type 0 where
  pub metadata : ObjectMeta
  pub conditions : List Condition
  pub resource_version : Text
  pub username : Text
  pub password : Text
  pub secret : Text
  pub password_from : Option SecretKeyReference
  pub secret_from : Option SecretKeyReference

-- The options that `cloudInitcompareOptions` gives to `cmp.Equal`: two transformers, and whether the
-- field IPConfig is ignored beside Password, PasswordFrom and Custom.
pub record CompareOptions : Type 0 where
  pub trim_space : Text → Text
  pub normalize_dns_servers : List Text → Option (List Text)
  pub ignore_ip_config : Bool

pub record Env : Type 0 where
  -- the error of a call, or `none`
  pub failure : List Event → Call → Option Error
  -- the answers of the calls that went well
  pub vms_on : List Event → Text → List Listing
  pub containers_on : List Event → Text → List Listing
  pub fetched : List Event → Text → ℕ → Guest
  pub pinged : List Event → Guest → Guest
  -- a container, one that is pinged, and the configuration of a stopped one
  pub fetched_container : List Event → Text → ℕ → Lxc
  pub pinged_container : List Event → Lxc → Lxc
  pub stopped_config : List Event → Text → ℕ → LxcConfig
  -- the `volid` of each entry of a storage
  pub volumes_on : List Event → Text → Text → List Text
  pub task_end : List Event → TaskEnd
  pub free_vmid : List Event → ℕ
  pub cloned_vmid : List Event → ℕ
  pub cloned_container_vmid : List Event → ℕ
  pub has_pending : List Event → ℕ → Bool
  pub stored_vm : List Event → Text → Text → VirtualMachine
  pub stored_vms : List Event → List VirtualMachine
  pub stored_templates : List Event → List VirtualMachineTemplate
  pub stored_containers : List Event → List Container
  pub stored_container : List Event → Text → Text → Container
  -- a VirtualMachineSet, and the virtual machines of a namespace with an owner label
  pub stored_set : List Event → Text → Text → VirtualMachineSet
  pub owned_vms : List Event → Text → Text → List VirtualMachine
  pub stored_template : List Event → Text → Text → VirtualMachineTemplate
  pub stored_snapshot : List Event → Text → Text → VirtualMachineSnapshot
  pub stored_download : List Event → Text → Text → StorageDownloadUrl
  -- the path of a storage of the cluster, and the names of the snapshots of a guest
  pub storage_path : List Event → Text → Text
  pub snapshots_of : List Event → ℕ → List Text
  -- a time, as the name of a snapshot has it
  pub timestamp : List Event → Text
  pub stored_connection : List Event → Text → Connection
  pub stored_connections : List Event → List Connection
  -- the version of Proxmox, and the virtual machines of a namespace with some labels
  pub version : List Event → Text
  pub labelled_vms : List Event → Text → List (Text × Text) → List VirtualMachine
  pub stored_policy : List Event → Text → Text → VirtualMachineSnapshotPolicy
  pub stored_secret : List Event → Text → Text → Secret
  -- `Watcher.LastDrift`: the difference that the external watcher has recorded
  pub last_drift : List Event → Text → Text → Option Text
  -- the time, in seconds
  pub clock : List Event → ℕ
  -- the exit status of the task that a call returns beside its error; `none` is a nil pointer
  pub failed_task : List Event → Option Text
  -- `EnableProxmoxTaskLogs` and the two tags, from the environment
  pub enable_task_logs : Bool
  pub virtual_machine_tag : Text
  pub virtual_machine_template_tag : Text
  -- the first eight bytes of the SHA-256 sum of an image reference, in hexadecimal digits
  pub image_id : Text → Text
  -- `proxmox.IsErrNoop`
  pub is_err_noop : Error → Bool
  -- `cmp.Equal` on networks
  pub networks_equal :
      Option (List VirtualMachineNetwork) → Option (List VirtualMachineNetwork) → Bool
  -- `cmp.Equal` on two cloud-init configurations, and on a pointer to one and another
  pub cloud_init_equal : CompareOptions → CloudInitConfig → CloudInitConfig → Bool
  pub pointer_equal : CompareOptions → CloudInitConfig → CloudInitConfig → Bool
  -- controllerutil and meta
  pub set_controller_reference : ObjectMeta → Text → Text → Option Error
  pub contains_finalizer : List Text → Text → Bool
  pub add_finalizer : List Text → Text → List Text
  pub remove_finalizer : List Text → Text → List Text × Bool
  pub find_condition : List Condition → Text → Option Condition
  pub set_condition : List Condition → Condition → List Condition × Bool
  pub remove_condition : List Condition → Text → List Condition
