-- ===== src/Storage/Contents.antt =====
-- The contents of a storage: `StorageDownloadURL`, `GetStorageContent`, `HasFile` and
-- `DeleteStorageContent` of pkg/proxmox/storage.go.
use kubemox.Api.{StorageDownloadUrlSpec}
use kubemox.Base.{Bool, List, Text, [], bytes, false, text_eq, ℕ, ◌++◌, ◌||◌, ◌∷◌}
use kubemox.Client.Cache.{get_node}
use kubemox.Client.Lookup.{on_node}
use kubemox.World.Call.{Call}
use kubemox.World.Error.{Error, message, wrap}
use kubemox.World.Monad.{
  Action, fail, gets, handle, on_option, perform, return, wait_for, ◌>>=◌, ◌>>◌,
}

-- `fmt.Errorf` with `%w` behind a text.
abbrev pub fail_with : {A : Type 0} → Text → Error → Action A
fail_with what e = fail (wrap (what ++ bytes ": " ++ message e) e)

-- `StorageDownloadURL`; the options are the fields of the specification, and only an explicit true of
-- `VerifyCertificate` is sent.
unfoldable pub storage_download_url : ℕ → Text → StorageDownloadUrlSpec → Action (Unit {0})
storage_download_url pc node_name spec =
    handle (get_node pc node_name) (fail_with (bytes "unable to get node " ++ node_name)) λ node.
      on_node node λ n.
        handle (perform (Call.download_url n spec))
          (fail_with (bytes "unable to start download operation")) return

-- `Node.Storage(ctx, storageName)` with its error.
abbrev on_storage : {A : Type 0} → ℕ → Text → Text → (Text → Action A) → Action A
on_storage pc node_name storage_name f =
    handle (get_node pc node_name) (fail_with (bytes "unable to get node " ++ node_name)) λ node.
      on_node node λ n.
        handle (perform (Call.node_storage n storage_name))
          (fail_with (bytes "unable to get storage " ++ storage_name)) (λ _. f n)

-- `GetStorageContent`: the volume of each entry.
unfoldable pub get_storage_content : ℕ → Text → Text → Action (List Text)
get_storage_content pc node_name storage_name = on_storage pc node_name storage_name λ n. do
  history ← gets (λ w. w.trace)
  handle (perform (Call.storage_content n storage_name))
      (fail_with (bytes "unable to get storage content"))
      (λ _. gets (λ w. w.env.volumes_on history n storage_name))

-- The name of a file on a storage: "%s:%s/%s".
abbrev pub volume_name : Text → Text → Text → Text
volume_name storage content filename = storage ++ (b':' ∷ (content ++ (b'/' ∷ filename)))

-- The loop of `HasFile`.
unfoldable pub has_volume : Text → List Text → Bool
has_volume target [] = false
has_volume target (item ∷ items) = text_eq item target || has_volume target items

-- `HasFile`
unfoldable pub has_file : List Text → StorageDownloadUrlSpec → Bool
has_file items spec = has_volume (volume_name spec.storage spec.content spec.filename) items

-- `DeleteStorageContent`; of the wait only its error is read.
unfoldable pub delete_storage_content : ℕ → Text → StorageDownloadUrlSpec → Action (Unit {0})
delete_storage_content pc storage_name spec = on_storage pc spec.node storage_name λ n. do
  let object_name = volume_name storage_name spec.content spec.filename
  handle (perform (Call.delete_content n storage_name object_name))
      (fail_with (bytes "unable to delete storage content " ++ object_name)) return
  end ← wait_for 5 10
  on_option end.error (return tt) (fail_with (bytes "unable to wait for delete task"))
