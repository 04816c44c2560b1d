-- ===== src/World/Call.antt =====
-- The calls that leave the program: to Proxmox, to the Kubernetes API server, to the event
-- recorder and to the external watcher.
use kubemox.Api.{Condition, ObservedSecret, StorageDownloadUrlSpec, VirtualMachineSpec}
use kubemox.Base.{Bool, List, Option, Text, false, true, ℕ}

-- The value of a `proxmox.VirtualMachineOption`.
pub data OptionValue : Type 0 where
  number : ℕ → OptionValue
  text : Text → OptionValue
  texts : List Text → OptionValue
  flag : Bool → OptionValue

pub data Call : Type 0 where
  -- Proxmox: reads
  get_node : Text → Call
  list_vms : Text → Call
  list_containers : Text → Call
  get_vm : Text → ℕ → Call
  ping : ℕ → Call
  next_id : Call
  pending : ℕ → Call
  -- containers: `node.Container`, the GET of a container's configuration, and a ping
  get_container : Text → ℕ → Call
  lxc_config : Text → ℕ → Call
  ping_container : ℕ → Call
  -- Proxmox: changes of a guest, by its VMID; `update` sets the cores and the memory
  start : ℕ → Call
  stop : ℕ → Call
  reboot : ℕ → Call
  delete : ℕ → Call
  clone : ℕ → Text → Text → Bool → Call
  new_vm : Text → ℕ → List (Text × OptionValue) → Call
  config : ℕ → Text → Text → Call
  update : ℕ → ℕ → ℕ → Call
  resize_disk : ℕ → Text → Text → Call
  add_tag : ℕ → Text → Call
  remove_tag : ℕ → Text → Call
  -- several options at once, the conversion into a template, and snapshots
  configure : ℕ → List (Text × OptionValue) → Call
  convert_to_template : ℕ → Call
  new_snapshot : ℕ → Text → Call
  list_snapshots : ℕ → Call
  start_container : ℕ → Call
  stop_container : ℕ → Call
  reboot_container : ℕ → Call
  clone_container : ℕ → Bool → Text → Text → Call
  new_container : Text → ℕ → List (Text × OptionValue) → Call
  config_container : ℕ → ℕ → ℕ → Call
  delete_container : ℕ → Call
  -- Proxmox: the contents of a storage of a node, and the pull of an OCI image into it
  storage_content : Text → Text → Call
  node_storage : Text → Text → Call
  cluster_storage : Text → Call
  download_url : Text → StorageDownloadUrlSpec → Call
  delete_content : Text → Text → Text → Call
  oci_registry_pull : Text → Text → Text → Text → Call
  -- Proxmox: the log of a task
  watch_task : Call
  -- Proxmox: the wait for the task that a change started, with its times and steps
  wait_task : ℕ → ℕ → Call
  -- Kubernetes: kind, namespace and name, and what is written
  kube_get : Text → Text → Text → Call
  kube_list : Text → Call
  kube_update : Text → Text → Text → List Text → Call
  kube_delete : Text → Text → Text → Call
  kube_create : Text → Text → Text → Call
  -- `controllerutil.CreateOrUpdate` of a VirtualMachine: namespace, name, owner label and specification
  create_or_update : Text → Text → Text → VirtualMachineSpec → Call
  patch_status : Text → Text → Text → List Condition → Call
  -- a secret, read by the clientset
  get_secret : Text → Text → Call
  -- a new StorageDownloadURL, and the status patches of one and of a VirtualMachineSnapshot
  create_download : Text → Text → StorageDownloadUrlSpec → Call
  patch_download : Text → Text → List Condition → Text → Call
  patch_snapshot : Text → Text → Text → Text → Call
  -- the version of Proxmox
  get_version : Call
  -- the status patch of a ProxmoxConnection: its conditions, its version and the observed secrets,
  -- where they are set
  patch_connection : Text → List Condition → Option Text → Option (List ObservedSecret) → Call
  -- a VirtualMachineSnapshot that a policy makes: namespace, name, virtual machine, snapshot, connection
  create_snapshot_object : Text → Text → Text → Text → Text → Call
  -- `cron.AddFunc` with its schedule
  add_cron : Text → Text → Call
  -- the status patch of a Container's applied image: its reference and its storage
  patch_image : Text → Text → Text → Text → Call
  -- `Recorder.Eventf` and `Watcher.Unregister`
  record_event : Text → Text → Call
  unregister : Text → Text → Call

-- A call with whether it went well.
pub record Event : Type 0 where
  pub call : Call
  pub succeeded : Bool

-- Whether a call changes guests on Proxmox.
abbrev pub changes_guest : Call → Bool
changes_guest (Call.start _) = true
changes_guest (Call.stop _) = true
changes_guest (Call.reboot _) = true
changes_guest (Call.delete _) = true
changes_guest (Call.clone _ _ _ _) = true
changes_guest (Call.new_vm _ _ _) = true
changes_guest (Call.config _ _ _) = true
changes_guest (Call.update _ _ _) = true
changes_guest (Call.resize_disk _ _ _) = true
changes_guest (Call.add_tag _ _) = true
changes_guest (Call.remove_tag _ _) = true
changes_guest (Call.configure _ _) = true
changes_guest (Call.convert_to_template _) = true
changes_guest (Call.new_snapshot _ _) = true
changes_guest (Call.start_container _) = true
changes_guest (Call.stop_container _) = true
changes_guest (Call.reboot_container _) = true
changes_guest (Call.clone_container _ _ _ _) = true
changes_guest (Call.new_container _ _ _) = true
changes_guest (Call.config_container _ _ _) = true
changes_guest (Call.delete_container _) = true
changes_guest _ = false

-- Whether a call reaches Proxmox at all.
abbrev pub reaches_proxmox : Call → Bool
reaches_proxmox (Call.get_node _) = true
reaches_proxmox (Call.list_vms _) = true
reaches_proxmox (Call.list_containers _) = true
reaches_proxmox (Call.get_vm _ _) = true
reaches_proxmox (Call.ping _) = true
reaches_proxmox (Call.get_container _ _) = true
reaches_proxmox (Call.lxc_config _ _) = true
reaches_proxmox (Call.ping_container _) = true
reaches_proxmox Call.next_id = true
reaches_proxmox (Call.pending _) = true
reaches_proxmox (Call.storage_content _ _) = true
reaches_proxmox (Call.node_storage _ _) = true
reaches_proxmox (Call.cluster_storage _) = true
reaches_proxmox (Call.download_url _ _) = true
reaches_proxmox (Call.delete_content _ _ _) = true
reaches_proxmox (Call.list_snapshots _) = true
reaches_proxmox Call.get_version = true
reaches_proxmox (Call.oci_registry_pull _ _ _ _) = true
reaches_proxmox Call.watch_task = true
reaches_proxmox (Call.wait_task _ _) = true
reaches_proxmox c = changes_guest c
