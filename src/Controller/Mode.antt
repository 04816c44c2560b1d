-- ===== src/Controller/Mode.antt =====
-- The reconcile mode of a resource: pkg/kubernetes/kubernetes.go and pkg/kubernetes/constants.go.
use kubemox.Api.{Condition, ObjectMeta}
use kubemox.Base.{List, Text, bytes, if◌then◌else◌, none, some, ℕ}
use kubemox.World.Call.{Call}
use kubemox.World.Error.{Error, is_kube_not_found}
use kubemox.World.Monad.{Action, fail, perform, return}

abbrev pub reconcile_mode_annotation : Text
reconcile_mode_annotation = bytes "proxmox.alperen.cloud/reconcile-mode"

abbrev pub normal : Text
normal = bytes "Reconcile"

abbrev pub watch_only : Text
watch_only = bytes "WatchOnly"

abbrev pub ensure_exists : Text
ensure_exists = bytes "EnsureExists"

abbrev pub disable : Text
disable = bytes "Disable"

-- `GetReconcileMode`; a nil map has no keys.
unfoldable pub get_reconcile_mode : ObjectMeta → Text
get_reconcile_mode resource = elim (resource.annotations reconcile_mode_annotation) [
  | none ↦ normal
  | some mode ↦ mode
]

-- `ctrl.Result`; the code sets no other field.
pub record Result : Type 0 where
  pub requeue_after : ℕ

abbrev pub dont_requeue : Result
dont_requeue = record { requeue_after = 0 }

abbrev pub requeue_in : ℕ → Result
requeue_in seconds = record { requeue_after = seconds }

-- `client.IgnoreNotFound(err)` in the return statement of an error branch.
abbrev pub ignore_not_found : {A : Type 0} → A → Error → Action A
ignore_not_found result e = if is_kube_not_found e then return result else fail e

-- `client.ObjectKeyFromObject` and the calls that carry it.
abbrev pub vm_kind : Text
vm_kind = bytes "VirtualMachine"

abbrev pub update_object : Text → ObjectMeta → List Text → Action (Unit {0})
update_object kind meta finalizers =
    perform (Call.kube_update kind meta.namespace meta.name finalizers)

abbrev pub patch_conditions : Text → ObjectMeta → List Condition → Action (Unit {0})
patch_conditions kind meta conditions =
    perform (Call.patch_status kind meta.namespace meta.name conditions)
