-- ===== src/World/Error.antt =====
-- Go `error` values: pkg/proxmox/errors.go, pkg/proxmox/tasks.go, and what the controllers ask of
-- an error by `errors.As`, `kerrors.IsNotFound` and `client.IgnoreNotFound`.
use kubemox.Base.{Bool, Text, false, true}

pub data Error : Type 0 where
  -- `*NotFoundError` and `*TaskError` of pkg/proxmox
  not_found : Text → Error
  task_error : Text → Error
  -- an API server's status error with the reason NotFound or AlreadyExists
  kube_not_found : Text → Error
  kube_already_exists : Text → Error
  -- `ErrNotFound` of go-proxmox, with the text of the error that wraps it
  pve_not_found : Text → Error
  -- any other error
  other : Text → Error
  -- `fmt.Errorf` with `%w`, and `reconcile.TerminalError`
  wrap : Text → Error → Error
  terminal : Error → Error

-- `errors.As(err, &taskErr)`
unfoldable pub is_task_error : Error → Bool
is_task_error (task_error _) = true
is_task_error (wrap _ e) = is_task_error e
is_task_error (terminal e) = is_task_error e
is_task_error _ = false

-- `errors.As(err, &notFoundErr)`
unfoldable pub is_not_found : Error → Bool
is_not_found (not_found _) = true
is_not_found (wrap _ e) = is_not_found e
is_not_found (terminal e) = is_not_found e
is_not_found _ = false

-- `kerrors.IsNotFound(err)`
unfoldable pub is_kube_not_found : Error → Bool
is_kube_not_found (kube_not_found _) = true
is_kube_not_found (wrap _ e) = is_kube_not_found e
is_kube_not_found (terminal e) = is_kube_not_found e
is_kube_not_found _ = false

-- `kerrors.IsAlreadyExists(err)`
unfoldable pub is_kube_already_exists : Error → Bool
is_kube_already_exists (kube_already_exists _) = true
is_kube_already_exists (wrap _ e) = is_kube_already_exists e
is_kube_already_exists (terminal e) = is_kube_already_exists e
is_kube_already_exists _ = false

-- `errors.Is(err, pve.ErrNotFound)`
unfoldable pub is_pve_not_found : Error → Bool
is_pve_not_found (pve_not_found _) = true
is_pve_not_found (wrap _ e) = is_pve_not_found e
is_pve_not_found (terminal e) = is_pve_not_found e
is_pve_not_found _ = false

-- `err.Error()`
unfoldable pub message : Error → Text
message (not_found s) = s
message (task_error s) = s
message (kube_not_found s) = s
message (kube_already_exists s) = s
message (pve_not_found s) = s
message (other s) = s
message (wrap s _) = s
message (terminal e) = message e
