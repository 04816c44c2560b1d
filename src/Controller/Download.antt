-- ===== src/Controller/Download.antt =====
-- internal/controller/proxmox/storagedownloadurl_controller.go. Log lines are left out.
use kubemox.Api.{Condition, StorageDownloadUrl}
use kubemox.Base.{List, Text, bytes, if◌then◌else◌, not, text_eq, ℕ, ◌++◌}
use kubemox.Client.FromRef.{new_client_from_ref}
use kubemox.Controller.Deletion.{has_condition}
use kubemox.Controller.Mode.{
  Result, disable, dont_requeue, get_reconcile_mode, ignore_not_found, update_object,
}
use kubemox.Storage.Contents.{
  delete_storage_content, get_storage_content, has_file, storage_download_url,
}
use kubemox.World.Call.{Call}
use kubemox.World.Monad.{
  Action, fail, gets, handle, on_option, perform, return, wait_for, ◌>>=◌, ◌>>◌,
}

abbrev pub download_kind : Text
download_kind = bytes "StorageDownloadURL"

abbrev pub download_finalizer_name : Text
download_finalizer_name = bytes "storagedownloadurl.proxmox.alperen.cloud/finalizer"

abbrev pub completed_status : Text
completed_status = bytes "Completed"

-- A condition of the type Available, and the deletion's.
abbrev pub available_download : Text → Text → Condition
available_download reason detail = record {
  type = bytes "Available";
  status = bytes "True";
  reason = reason;
  message = detail;
  observed_generation = 0;
}

abbrev deleting_download : Condition
deleting_download = record {
  type = bytes "Deleting";
  status = bytes "True";
  reason = bytes "Deleting";
  message = bytes "Deleting StorageDownloadURL";
  observed_generation = 0;
}

-- The status patch.
abbrev patch_download : StorageDownloadUrl → List Condition → Text → Action (Unit {0})
patch_download sdu conditions status =
    perform (Call.patch_download sdu.metadata.namespace sdu.metadata.name conditions status)

-- The status "Completed" with its condition.
unfoldable pub mark_completed : StorageDownloadUrl → Text → Text → Action (Unit {0})
mark_completed sdu reason detail = do
  env ← gets (λ w. w.env)
  let (conditions, _) = env.set_condition sdu.conditions (available_download reason detail)
  patch_download sdu conditions completed_status

-- The log of the task, where it is switched on.
abbrev watch_log : Action (Unit {0})
watch_log = do
  enabled ← gets (λ w. w.env.enable_task_logs)
  if enabled then perform Call.watch_task else return tt

-- `handleDownloadURL`; the status of the task is not read.
unfoldable pub handle_download_url : ℕ → StorageDownloadUrl → Action (Unit {0})
handle_download_url pc sdu = do
  storage_download_url pc sdu.spec.node sdu.spec
  watch_log
  end ← wait_for 5 12
  on_option end.error
      (if end.completed
        then mark_completed sdu (bytes "Downloaded") (
            bytes "File "
            ++ sdu.spec.filename
            ++ bytes " has been downloaded successfully to "
            ++ sdu.spec.storage
            ++ bytes " storage")
        else return tt)
      fail

-- The lines of `handleDelete` behind the condition.
unfoldable pub delete_download : ℕ → StorageDownloadUrl → Action (Unit {0})
delete_download pc sdu =
    handle (delete_storage_content pc sdu.spec.storage sdu.spec) (ignore_not_found tt) λ _. do
      env ← gets (λ w. w.env)
      let (finalizers, _) = env.remove_finalizer sdu.metadata.finalizers download_finalizer_name
      handle (update_object download_kind sdu.metadata finalizers) (ignore_not_found tt) return

-- `handleDelete`
unfoldable pub handle_download_delete : ℕ → StorageDownloadUrl → Action (Unit {0})
handle_download_delete pc sdu = do
  env ← gets (λ w. w.env)
  if has_condition env sdu.conditions (bytes "Deleting") (bytes "True")
      then delete_download pc sdu
      else (do
        let (conditions, _) = env.set_condition sdu.conditions deleting_download
        handle (patch_download sdu conditions sdu.status) (ignore_not_found tt)
            (λ _. delete_download pc sdu))

-- The lines of `Reconcile` on the contents of the storage.
unfoldable pub ensure_downloaded : ℕ → StorageDownloadUrl → Action Result
ensure_downloaded pc sdu = do
  items ← get_storage_content pc sdu.spec.node sdu.spec.storage
  env ← gets (λ w. w.env)
  if not (has_file items sdu.spec)
      then handle_download_url pc sdu >> return dont_requeue
      else if has_condition env sdu.conditions (bytes "Available") (bytes "True")
      then return dont_requeue
      else (mark_completed sdu (bytes "Available") (
            bytes "File "
            ++ sdu.spec.filename
            ++ bytes " exists in the storage "
            ++ sdu.spec.storage)
          >> return dont_requeue)

-- The finalizer of an object that is not being deleted.
unfoldable pub add_download_finalizer : StorageDownloadUrl → Action (Unit {0})
add_download_finalizer sdu = do
  env ← gets (λ w. w.env)
  if env.contains_finalizer sdu.metadata.finalizers download_finalizer_name
      then return tt
      else update_object download_kind sdu.metadata
          (env.add_finalizer sdu.metadata.finalizers download_finalizer_name)

-- The branch of an object that is being deleted.
unfoldable pub reconcile_download_deletion : ℕ → StorageDownloadUrl → Action Result
reconcile_download_deletion pc sdu = do
  env ← gets (λ w. w.env)
  if env.contains_finalizer sdu.metadata.finalizers download_finalizer_name
      then handle_download_delete pc sdu >> return dont_requeue
      else return dont_requeue

-- `Reconcile`, once the object is read
unfoldable pub reconcile_download : StorageDownloadUrl → Action Result
reconcile_download sdu = do
  pc ← new_client_from_ref sdu.spec.connection_ref
  if text_eq (get_reconcile_mode sdu.metadata) disable
      then return dont_requeue
      else if sdu.metadata.deleting
      then reconcile_download_deletion pc sdu
      else handle (add_download_finalizer sdu) (ignore_not_found dont_requeue)
          (λ _. ensure_downloaded pc sdu)

-- `Reconcile`, with `handleResourceNotFound`
unfoldable pub reconcile_download_object : Text → Text → Action Result
reconcile_download_object namespace name = do
  history ← gets (λ w. w.trace)
  handle (perform (Call.kube_get download_kind namespace name)) (ignore_not_found dont_requeue)
      λ _. do sdu ← gets (λ w. w.env.stored_download history namespace name); reconcile_download sdu
