-- ===== src/Lib.antt =====
-- kubemox: a Kubernetes operator that manages the virtual machines of Proxmox clusters.
--
-- The program and where it is modelled:
-- * pkg/guestname/guestname.go decides which of several resources owns a guest name: GuestName.Defs
--   (Claim, SameGuest, SameObject, before, Owner as owner_of), its order in GuestName.Order, its owner
--   in GuestName.Owner.
-- * pkg/proxmox is the client of a cluster. Client.Cache has the caches of connection.go and
--   container_cache_methods.go, Client.FromRef has NewProxmoxClientFromRef and credentials.go,
--   Client.Retry has RetryRoundTripper. The other modules are virtualmachine.go and generics.go:
--   Client.Lookup, Client.Power, Client.Create, Client.Update, Client.Options, Client.Network,
--   Client.Disk, Client.Pci and Client.PciConfig. Client.Quiet, Client.Harmless and
--   Client.HarmlessConfig follow the calls that the operations make; Client.Classify,
--   Client.NetworkBounds, Client.Caching, Client.Reuse, Client.Forgets and Client.PciRoundTrip have the laws.
-- * pkg/proxmox/containers.go is Client.Container (lookup, refresh, deletion) and Client.ContainerPower
--   (clone, start, state, update, restart, delta); the laws are in Client.ContainerDeletion,
--   Client.ContainerCache and Client.ContainerProgress, which stands on Client.ContainerSettled.
-- * pkg/proxmox/container_oci.go creates containers from OCI images. Oci.Names has the names, tags and
--   matches, Oci.Volume the pull and the volumes, Oci.Create the container; Oci.Tag, Oci.Recognition
--   and Oci.Selection have the laws, Oci.Harmless and Oci.HarmlessCreate the calls.
-- * pkg/proxmox/virtualmachinetemplate.go is Template.CloudInit, Template.IpConfigs and
--   Template.Machine, with a law in Template.IpRoundTrip. pkg/proxmox/storage.go is Storage.Contents.
--   The snapshots of virtualmachine.go are Snapshot.Guests.
-- * pkg/utils/utils.go has helpers; what the code uses of it stands beside its use, FormatUptime in
--   Client.Uptime.
-- * internal/controller/proxmox/virtualmachine_controller.go is the reconciler: Controller.Actions,
--   Controller.Deletion and Controller.Reconcile. Its gate, guestname.go, is Controller.Claims;
--   pkg/kubernetes is Controller.Mode. Controller.Protection, Controller.Isolation and
--   Controller.Outcomes state what a reconcile does to Proxmox.
-- * internal/controller/proxmox/container_controller.go is Controller.ContainerDeletion,
--   Controller.ContainerOperations and Controller.ContainerReconcile; Controller.ContainerProtection and
--   Controller.ContainerProgress have its laws.
-- * The other controllers of internal/controller/proxmox: virtualmachineset_controller.go is
--   Controller.Set, with laws in Controller.Scaling; virtualmachinetemplate_controller.go is
--   Controller.TemplateDeletion, Controller.TemplateOperations and Controller.TemplateReconcile, with
--   laws in Controller.TemplateOutcomes; storagedownloadurl_controller.go is Controller.Download, with
--   laws in Controller.DownloadOutcomes; virtualmachinesnapshot_controller.go is Controller.Snapshot,
--   with laws in Controller.SnapshotOutcomes; virtualmachinesnapshotpolicy_controller.go is
--   Controller.SnapshotPolicy; proxmoxconnection_controller.go is Controller.Connection, with laws in
--   Controller.SecretUsers.
-- * internal/webhook/proxmox/v1alpha1/name_webhook.go is Controller.Webhook; Controller.Admission
--   states what is admitted.
-- * pkg/proxmox/fetcher.go hands the external watcher the states that it compares: Watcher.Fetch, with
--   sortDisks of virtualmachine.go in Watcher.Sort and its law in Watcher.Reordering.
-- * api/proxmox/v1alpha1 is Api, with the fields that the code reads. World.Error has the errors.
-- Scenario and Tests run the definitions on concrete clusters.
--
-- How it is modelled. A Go function is an action on a World (World.Monad): it ends with a value, an
-- error or a panic, and with the world it leaves. The world has the caches, the objects behind
-- pointers, and a trace of all calls that leave the program (World.Call): to Proxmox, to the API
-- server, to the event recorder and to the watcher. What these answer is a parameter (World.Env): a
-- function of all calls made before and of the call, with no assumption on it, so an answer may fail
-- at any point and another process may change the cluster between any two calls. The functions of
-- controller-runtime, apimachinery and go-cmp that the code calls are fields of Env as well.
-- World.Keeps has the rules for invariants, World.Trace for the calls that an action avoids,
-- World.Ends for what holds where an action ended with no error, World.Sure for actions that end well
-- in the worlds of an invariant. Base.Bytes, Base.Texts and Base.Dashes have Go's functions on strings.
--
-- Bounds. Loops run over lists and need no fuel, with two exceptions: the loop over double dashes
-- (Base.Texts, collapse_loop) has as much fuel as its text is long (see Base.Dashes), and
-- the loops that the source bounds by a number of attempts run that often. Proxmox's waits with a number
-- of times and steps are single calls, and sleeps are left out. Go's int is a natural number: the code
-- does not go below 0 where it is modelled. Texts are lists of bytes; EqualFold, ToLower and TrimSpace
-- know the ASCII letters and spaces, which is what Proxmox allows in the names of guests and what image
-- references are made of. A Go map that is ranged over is a list in the order of the range. A function
-- that holds a mutex from its first line to its last is one step; the semaphore and the mutex around
-- creation only delay a call. Log lines are left out, the recorder and the watcher are not nil, as
-- cmd/main.go sets them, an event keeps of its text the error or the name, and the text of some errors
-- is shortened. The retry loop is modelled for a number of retries that is not negative.
--
-- Not modelled: certificates and nodes, the reads of the status of guests (UpdateContainerStatus,
-- UpdateVMStatus, the guest agent) with the fetchers' status updates, the search of a cluster for a
-- container, CheckVirtualMachineDelta (nothing calls it), metrics, tracing, the setup in cmd/main.go, and
-- generated code. They are output, calls of other libraries or glue; the renewal of certificates is the
-- part of them with logic of its own. The comparison of states is the watcher library's.

pub mod Base
pub mod Api
pub mod GuestName
pub mod World
pub mod Client
pub mod Oci
pub mod Template
pub mod Storage
pub mod Snapshot
pub mod Controller
pub mod Watcher
pub mod Scenario
pub mod Tests
