-- ===== src/Api.antt =====
-- api/proxmox/v1alpha1 and the object metadata of Kubernetes: the fields that the code reads.
-- A pointer or a slice that may be nil is an `Option`; Go's `int` is a natural number here.
use kubemox.Base.{Bool, List, Option, Text, false, true, ℕ}

-- metav1.Condition; the status is the text "True", "False" or "Unknown".
pub record Condition : Type 0 where
  pub type : Text
  pub status : Text
  pub reason : Text
  pub message : Text
  pub observed_generation : ℕ

-- metav1.ObjectMeta. `deleting` says that the deletion timestamp is set, `created` is the creation
-- timestamp.
pub record ObjectMeta : Type 0 where
  pub namespace : Text
  pub name : Text
  pub created : ℕ
  pub deleting : Bool
  pub generation : ℕ
  pub finalizers : List Text
  pub annotations : Text → Option Text
  pub labels : Text → Option Text

pub record VirtualMachineDisk : Type 0 where
  pub storage : Text
  pub size : ℕ
  pub device : Text

pub record VirtualMachineNetwork : Type 0 where
  pub model : Text
  pub bridge : Text

pub record PciDevice : Type 0 where
  pub type : Text
  pub device_id : Text
  pub primary_gpu : Bool
  pub pcie : Bool

pub record VirtualMachineSpecTemplate : Type 0 where
  pub name : Text
  pub cores : ℕ
  pub socket : ℕ
  pub memory : ℕ
  pub disk : List VirtualMachineDisk
  pub network : Option (List VirtualMachineNetwork)
  pub pci_devices : List PciDevice

pub record NewVmSpec : Type 0 where
  pub cores : ℕ
  pub socket : ℕ
  pub memory : ℕ
  pub disk : List VirtualMachineDisk
  pub network : Option (List VirtualMachineNetwork)
  pub os_image_name : Text
  pub os_image_value : Text
  pub pci_devices : List PciDevice
  -- whether `cloudInitConfig` is set; nothing else of it is read
  pub cloud_init : Bool

-- The zero value "" is neither of the constants.
pub data CloneMode : Type 0 where
  unset full linked : CloneMode

unfoldable pub is_full_clone : CloneMode → Bool
is_full_clone CloneMode.linked = false
is_full_clone _ = true

pub record VirtualMachineSpec : Type 0 where
  pub name : Text
  pub node_name : Text
  pub template : Option VirtualMachineSpecTemplate
  pub vm_spec : Option NewVmSpec
  pub deletion_protection : Bool
  pub enable_auto_start : Bool
  pub additional_config : Option (List (Text × Text))
  pub clone_mode : CloneMode
  pub connection_ref : Option Text

-- `observed_generation` and the conditions of VirtualMachineStatus.
pub record VirtualMachine : Type 0 where
  pub metadata : ObjectMeta
  pub spec : VirtualMachineSpec
  pub conditions : List Condition
  pub observed_generation : ℕ

-- corev1.SecretKeySelector; a nil `Optional` is false.
pub record SecretKeySelector : Type 0 where
  pub name : Text
  pub key : Text
  pub optional : Bool

pub record IpConfig : Type 0 where
  pub gateway : Text
  pub gateway_ipv6 : Text
  pub ip : Text
  pub ipv6 : Text
  pub cidr : Text

pub record CiCustom : Type 0 where
  pub user_data : Text
  pub meta_data : Text
  pub network_data : Text
  pub vendor_data : Text

pub record CloudInitConfig : Type 0 where
  pub user : Text
  pub password : Option Text
  pub password_from : Option SecretKeySelector
  pub dns_domain : Text
  pub dns_servers : List Text
  pub ssh_keys : List Text
  pub upgrade_packages : Bool
  pub ip_config : Option IpConfig
  pub custom : Option CiCustom

pub record VirtualMachineConfig : Type 0 where
  pub sockets : ℕ
  pub cores : ℕ
  pub memory : ℕ
  pub network : VirtualMachineNetwork
  pub storage : Option Text

-- StorageDownloadURLContent with the connection: StorageDownloadURLSpec.
pub record StorageDownloadUrlSpec : Type 0 where
  pub content : Text
  pub filename : Text
  pub node : Text
  pub storage : Text
  pub url : Text
  pub checksum : Text
  pub checksum_algorithm : Text
  pub compression : Text
  pub verify_certificate : Bool
  pub connection_ref : Option Text

pub record StorageDownloadUrl : Type 0 where
  pub metadata : ObjectMeta
  pub spec : StorageDownloadUrlSpec
  pub conditions : List Condition
  pub status : Text

-- `image_config` is a StorageDownloadURLContent, so its connection is not read.
pub record VirtualMachineTemplateSpec : Type 0 where
  pub name : Text
  pub node_name : Text
  pub deletion_protection : Bool
  pub virtual_machine_config : VirtualMachineConfig
  pub image_config : StorageDownloadUrlSpec
  pub cloud_init_config : Option CloudInitConfig
  pub additional_config : List (Text × Text)
  pub connection_ref : Option Text

pub record VirtualMachineTemplate : Type 0 where
  pub metadata : ObjectMeta
  pub spec : VirtualMachineTemplateSpec
  pub conditions : List Condition

-- VirtualMachineSnapshot, with its specification and its status in one.
pub record VirtualMachineSnapshot : Type 0 where
  pub metadata : ObjectMeta
  pub virtual_machine_name : Text
  pub snapshot_name : Text
  pub connection_ref : Option Text
  pub status : Text

pub record ContainerTemplateImage : Type 0 where
  pub reference : Text
  pub storage : Text

pub record ContainerTemplateDisk : Type 0 where
  pub storage : Text
  pub size : ℕ

pub record ContainerTemplate : Type 0 where
  pub name : Text
  pub image : Option ContainerTemplateImage
  pub cores : ℕ
  pub memory : ℕ
  pub disk : List ContainerTemplateDisk
  pub network : List VirtualMachineNetwork

pub record ContainerSpec : Type 0 where
  pub name : Text
  pub node_name : Text
  pub template : ContainerTemplate
  pub deletion_protection : Bool
  pub enable_auto_start : Bool
  pub clone_mode : CloneMode
  pub connection_ref : Option Text

-- Container with its conditions and the OCI image that its status records.
pub record Container : Type 0 where
  pub metadata : ObjectMeta
  pub spec : ContainerSpec
  pub conditions : List Condition
  pub applied_image_reference : Text
  pub applied_image_storage : Text

pub record PciDevicesSpec : Type 0 where
  pub mode : Text
  pub devices : List PciDevice

pub record VirtualMachineSetSpec : Type 0 where
  pub deletion_protection : Bool
  pub enable_auto_start : Bool
  pub replicas : ℕ
  pub node_name : Text
  pub template : VirtualMachineSpecTemplate
  pub additional_config : Option (List (Text × Text))
  pub clone_mode : CloneMode
  pub connection_ref : Option Text
  pub pci_devices : Option PciDevicesSpec

pub record VirtualMachineSet : Type 0 where
  pub metadata : ObjectMeta
  pub spec : VirtualMachineSetSpec
  pub conditions : List Condition

-- `ObservedSecret` of the status of a ProxmoxConnection.
pub record ObservedSecret : Type 0 where
  pub name : Text
  pub namespace : Text
  pub resource_version : Text

-- VirtualMachineSnapshotPolicy; of the label selector the code reads `MatchLabels`.
pub record VirtualMachineSnapshotPolicy : Type 0 where
  pub metadata : ObjectMeta
  pub match_labels : List (Text × Text)
  pub snapshot_schedule : Text
  pub connection_ref : Option Text
