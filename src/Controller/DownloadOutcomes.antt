-- ===== src/Controller/DownloadOutcomes.antt =====
-- What a StorageDownloadURL records: internal/controller/proxmox/storagedownloadurl_controller.go.
use kubemox.Api.{StorageDownloadUrl}
use kubemox.Base.{
  Bool, List, Text, [], arith, bytes, false, none, refl, subst, sym, text_eq, true, ℕ, ◌&&◌, ◌++◌,
  ◌∷◌, ◌≡◌,
}
use kubemox.Controller.Download.{
  available_download, completed_status, handle_download_url, mark_completed,
}
use kubemox.Storage.Contents.{storage_download_url}
use kubemox.World.Call.{Call, Event}
use kubemox.World.Monad.{
  World, after, gets, logged, ok, on_option, perform, return, wait_for, ◌>>=◌,
}

abbrev is_completion : Call → Bool
is_completion (Call.patch_download _ _ _ status) = text_eq status completed_status
is_completion _ = false

-- The last call asked for was the status patch to "Completed".
abbrev pub completed_last : List Event → Bool
completed_last [] = false
completed_last (e ∷ _) = is_completion e.call

patched :
    (c : Call) (w : World)
    → is_completion c ≡ true
    → completed_last (after (perform c w)).trace ≡ true
unfolding perform
patched c w h = ground arith

mark_completed-last :
    (sdu : StorageDownloadUrl) (reason detail : Text) (w : World)
    → completed_last (after (mark_completed sdu reason detail w)).trace ≡ true
unfolding mark_completed gets ◌>>=◌ text_eq
mark_completed-last sdu reason detail w =
    patched
      (Call.patch_download sdu.metadata.namespace sdu.metadata.name
        (w.env.set_condition sdu.conditions (available_download reason detail)).0 completed_status)
      w refl

abbrev downloaded : StorageDownloadUrl → Text
downloaded sdu =
    bytes "File "
    ++ sdu.spec.filename
    ++ bytes " has been downloaded successfully to "
    ++ sdu.spec.storage
    ++ bytes " storage"

-- The world behind the wait for the download.
abbrev waited : World → World
waited w =
    logged (Call.wait_task 5 12)
      ((w.env.task_end w.trace).status && (w.env.task_end w.trace).completed) w

download_ends :
    (pc : ℕ) (sdu : StorageDownloadUrl) (w w1 : World)
    → storage_download_url pc sdu.spec.node sdu.spec w ≡ ok tt w1
    → w1.env.enable_task_logs ≡ false
    → (w1.env.task_end w1.trace).error ≡ none
    → (w1.env.task_end w1.trace).completed ≡ true
    → handle_download_url pc sdu w
      ≡ mark_completed sdu (bytes "Downloaded") (downloaded sdu) (waited w1)
unfolding handle_download_url wait_for gets return on_option ◌>>=◌
download_ends pc sdu w w1 n l e c = ground arith

-- A download whose task fails is recorded as "Completed": where the download starts, the task logs are off,
-- and the wait for its task ends without an error and with a task that is complete, the last call of
-- `handleDownloadURL` is the status patch to "Completed", whether the task succeeded or not.
pub failed_download-Completed :
    (pc : ℕ) (sdu : StorageDownloadUrl) (w w1 : World)
    → storage_download_url pc sdu.spec.node sdu.spec w ≡ ok tt w1
    → w1.env.enable_task_logs ≡ false
    → (w1.env.task_end w1.trace).error ≡ none
    → (w1.env.task_end w1.trace).completed ≡ true
    → completed_last (after (handle_download_url pc sdu w)).trace ≡ true
failed_download-Completed pc sdu w w1 n l e c =
    subst (λ o. completed_last (after o).trace ≡ true) (sym (download_ends pc sdu w w1 n l e c))
      (mark_completed-last sdu (bytes "Downloaded") (downloaded sdu) (waited w1))
