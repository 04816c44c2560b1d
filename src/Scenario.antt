-- ===== src/Scenario.antt =====
-- Concrete virtual machines, and a cluster whose calls fail as told.
use kubemox.Api.{
  CloneMode, CloudInitConfig, Container, StorageDownloadUrl, VirtualMachine, VirtualMachineSet,
  VirtualMachineSnapshot, VirtualMachineSnapshotPolicy, VirtualMachineTemplate,
}
use kubemox.Base.{Bool, List, Option, Text, [], bytes, false, none, some, true, ℕ, ◌∷◌}
use kubemox.Controller.Deletion.{virtual_machine_finalizer_name}
use kubemox.Controller.Mode.{watch_only}
use kubemox.GuestName.Defs.{Claim, for_vm}
use kubemox.World.Call.{Call, Event}
use kubemox.World.Env.{Connection, Env, Guest, Lxc, LxcConfig}
use kubemox.World.Error.{Error, other}
use kubemox.World.Monad.{Outcome, World, err, ok}

-- A virtual machine of the namespace "a", made at a time.
abbrev pub machine : Text → ℕ → Bool → VirtualMachine
machine name created deleting = record {
  metadata = record {
    namespace = bytes "a";
    name = name;
    created = created;
    deleting = deleting;
    generation = 1;
    finalizers = virtual_machine_finalizer_name ∷ [];
    annotations = λ _. none;
    labels = λ _. none;
  };
  spec = record {
    name = bytes "web";
    node_name = bytes "pve";
    template = none;
    vm_spec = none;
    deletion_protection = false;
    enable_auto_start = false;
    additional_config = none;
    clone_mode = CloneMode.full;
    connection_ref = some (bytes "px");
  };
  conditions = [];
  observed_generation = 0;
}

abbrev pub elder : VirtualMachine
elder = machine (bytes "elder") 10 false

abbrev pub younger : VirtualMachine
younger = machine (bytes "younger") 20 true

abbrev pub idle : VirtualMachine
idle = record elder { metadata = record (elder.metadata) { annotations = λ _. some watch_only } }

abbrev pub no_failure : List Event → Call → Option Error
no_failure _ _ = none

abbrev pub no_nodes : List Event → Call → Option Error
no_nodes _ (Call.get_node _) = some (other (bytes "no route to host"))
no_nodes _ _ = none

abbrev pub web_guest : Guest
web_guest = record {
  vmid = 100;
  status = bytes "stopped";
  node = bytes "pve";
  uptime = 0;
  cpus = 2;
  max_mem = 0;
  lock = [];
  template = false;
  vm_config = record {
    cores = none;
    sockets = none;
    memory = 0;
    nets = [];
    disks = [];
    host_pcis = [];
    ide2 = [];
    scsi0 = [];
    ip_config0 = bytes "gw=10.0.0.1,ip=10.0.0.2/24";
    ci_user = [];
    searchdomain = [];
    nameserver = [];
    ssh_keys = [];
    ci_upgrade = none;
  };
}

abbrev pub web_config : LxcConfig
web_config = record {
  hostname = bytes "web";
  cores = 1;
  memory = some 512;
  lock = [];
  tags = bytes "prod;img-nginx-1-27";
}

abbrev pub web_container : Lxc
web_container = record {
  vmid = 200;
  name = bytes "web";
  status = bytes "running";
  cpus = 1;
  max_mem = 536870912;
  container_config = some web_config;
}

abbrev pub connection : Connection
connection = record {
  metadata = record (elder.metadata) { name = bytes "px" };
  conditions = [];
  resource_version = bytes "1";
  username = [];
  password = [];
  secret = bytes "s";
  password_from = none;
  secret_from = none;
}

-- A set of three.
abbrev pub trio : VirtualMachineSet
trio = record {
  metadata = record (elder.metadata) { name = bytes "trio" };
  spec = record {
    deletion_protection = false;
    enable_auto_start = true;
    replicas = 3;
    node_name = bytes "pve";
    template = record {
      name = bytes "tpl";
      cores = 1;
      socket = 1;
      memory = 0;
      disk = [];
      network = none;
      pci_devices = [];
    };
    additional_config = none;
    clone_mode = CloneMode.linked;
    connection_ref = some (bytes "px");
    pci_devices = none;
  };
  conditions = [];
}

abbrev pub image : StorageDownloadUrl
image = record {
  metadata = record (elder.metadata) { name = bytes "golden-image" };
  spec = record {
    content = bytes "iso";
    filename = bytes "debian.img";
    node = bytes "pve";
    storage = bytes "local";
    url = bytes "https://example.org/debian.img";
    checksum = [];
    checksum_algorithm = [];
    compression = [];
    verify_certificate = false;
    connection_ref = some (bytes "px");
  };
  conditions = [];
  status = [];
}

abbrev pub golden_config : CloudInitConfig
golden_config = record {
  user = bytes "admin";
  password = none;
  password_from = none;
  dns_domain = [];
  dns_servers = [];
  ssh_keys = [];
  upgrade_packages = false;
  ip_config = none;
  custom = none;
}

-- A template with its image, and a snapshot.
abbrev pub golden : VirtualMachineTemplate
golden = record {
  metadata = record (elder.metadata) { name = bytes "golden" };
  spec = record {
    name = bytes "web";
    node_name = bytes "pve";
    deletion_protection = false;
    virtual_machine_config = record {
      sockets = 1;
      cores = 2;
      memory = 2048;
      network = record { model = bytes "virtio"; bridge = bytes "vmbr0" };
      storage = some (bytes "local-lvm");
    };
    image_config = image.spec;
    cloud_init_config = some golden_config;
    additional_config = [];
    connection_ref = some (bytes "px");
  };
  conditions = [];
}

abbrev pub nightly : VirtualMachineSnapshot
nightly = record {
  metadata = record (elder.metadata) { name = bytes "nightly" };
  virtual_machine_name = bytes "elder";
  snapshot_name = bytes "before-upgrade";
  connection_ref = some (bytes "px");
  status = [];
}

abbrev pub daily : VirtualMachineSnapshotPolicy
daily = record {
  metadata = record (elder.metadata) { name = bytes "daily" };
  match_labels = [];
  snapshot_schedule = bytes "@daily";
  connection_ref = some (bytes "px");
}

-- A container that is made from an OCI image.
abbrev pub box : Container
box = record {
  metadata = record (elder.metadata) { name = bytes "box" };
  spec = record {
    name = bytes "web";
    node_name = bytes "pve";
    template = record {
      name = [];
      image = some (record { reference = bytes "nginx:1.27"; storage = bytes "local" });
      cores = 2;
      memory = 512;
      disk = record { storage = bytes "local-lvm"; size = 8 } ∷ [];
      network = [];
    };
    deletion_protection = false;
    enable_auto_start = true;
    clone_mode = CloneMode.full;
    connection_ref = some (bytes "px");
  };
  conditions = [];
  applied_image_reference = [];
  applied_image_storage = [];
}

-- A cluster with the guest "Web" on the node, whose calls fail as told, and an API server with both
-- virtual machines.
abbrev pub cluster : (List Event → Call → Option Error) → Env
cluster failure = record {
  failure = failure;
  vms_on = λ _ _. record { name = bytes "Web"; vmid = 100 } ∷ [];
  containers_on = λ _ _. record { name = bytes "web"; vmid = 200 } ∷ [];
  fetched = λ _ _ _. web_guest;
  pinged = λ _ g. g;
  fetched_container = λ _ _ _. web_container;
  pinged_container = λ _ c. c;
  stopped_config = λ _ _ _. web_config;
  volumes_on = λ _ _ _. bytes "local:oci/nginx-1-27.tar" ∷ [];
  task_end = λ _. record { status = true; completed = true; error = none; exit_status = [] };
  free_vmid = λ _. 101;
  cloned_vmid = λ _. 101;
  cloned_container_vmid = λ _. 201;
  has_pending = λ _ _. false;
  stored_vm = λ _ _ _. elder;
  stored_vms = λ _. elder ∷ younger ∷ [];
  stored_templates = λ _. [];
  stored_containers = λ _. [];
  stored_container = λ _ _ _. box;
  stored_set = λ _ _ _. trio;
  owned_vms = λ _ _ _. [];
  stored_template = λ _ _ _. golden;
  stored_snapshot = λ _ _ _. nightly;
  stored_download = λ _ _ _. image;
  storage_path = λ _ _. bytes "/var/lib/vz";
  snapshots_of = λ _ _. [];
  timestamp = λ _. bytes "2026_01_02";
  stored_connection = λ _ _. connection;
  stored_connections = λ _. connection ∷ [];
  version = λ _. bytes "8.2";
  labelled_vms = λ _ _ _. elder ∷ [];
  stored_policy = λ _ _ _. daily;
  stored_secret =
      λ _ _ _. record { namespace = []; name = []; resource_version = []; contents = λ _. none };
  last_drift = λ _ _ _. none;
  clock = λ _. 0;
  failed_task = λ _. none;
  enable_task_logs = false;
  virtual_machine_tag = bytes "kubemox";
  virtual_machine_template_tag = bytes "kubemox-template";
  image_id = λ _. bytes "0123456789abcdef";
  is_err_noop = λ _. false;
  networks_equal = λ _ _. false;
  cloud_init_equal = λ _ _ _. false;
  pointer_equal = λ _ _ _. false;
  set_controller_reference = λ _ _ _. none;
  contains_finalizer = λ _ _. true;
  add_finalizer = λ l f. f ∷ l;
  remove_finalizer = λ _ _. ([], true);
  find_condition = λ _ _. none;
  set_condition = λ l c. (c ∷ l, true);
  remove_condition = λ l _. l;
}

-- The world before the first call.
abbrev pub start : (List Event → Call → Option Error) → World
start failure = record {
  env = cluster failure;
  trace = [];
  caches = λ _ _. none;
  next_client = 0;
  client_cache = λ _. none;
  guests = λ _. web_guest;
  next_guest = 0;
  lxcs = λ _. web_container;
  next_lxc = 0;
  cron_jobs = λ _. none;
}

abbrev pub elder_claim : Claim
elder_claim = for_vm elder

abbrev pub younger_claim : Claim
younger_claim = for_vm younger

abbrev pub both : List Claim
both = elder_claim ∷ younger_claim ∷ []

abbrev pub calm : World
calm = start no_failure

abbrev pub value_of : {A : Type 0} → A → Outcome A → A
value_of a (ok b _) = b
value_of a _ = a

abbrev pub error_of : {A : Type 0} → Outcome A → Error
error_of (err e _) = e
error_of _ = other []
