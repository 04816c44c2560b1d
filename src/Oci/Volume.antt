-- ===== src/Oci/Volume.antt =====
-- The storage volume of an OCI image: `findOCIVolumeID`, `ociRegistryPull` and `ensureOCIVolume` of
-- pkg/proxmox/container_oci.go.
use kubemox.Api.{Container}
use kubemox.Base.{
  List, Option, Text, [], bytes, contains, if◌then◌else◌, inl, inr, is_nil, none, not, some,
  to_lower, ◌++◌, ◌∷◌, ◌⊎◌,
}
use kubemox.Oci.Names.{
  oci_artifact_already_exists_error, oci_artifact_storage, oci_pull_filename, oci_vol_matches_pull,
}
use kubemox.World.Call.{Call}
use kubemox.World.Error.{Error, is_pve_not_found, message, pve_not_found, wrap}
use kubemox.World.Monad.{
  Action, crash, fail, finish_task, gets, handle, on_option, perform, return, wait_for, ◌>>=◌, ◌>>◌,
}

-- The two lists that the loop of `findOCIVolumeID` fills.
unfoldable pub volume_hits : Text → List Text → List Text × List Text
volume_hits marker [] = ([], [])
volume_hits marker (v ∷ vs) =
    let (oci, vz) = volume_hits marker vs in
    if not (oci_vol_matches_pull v marker)
    then (oci, vz)
    else if contains (to_lower v) (bytes ":oci/")
    then (v ∷ oci, vz)
    else if contains (to_lower v) (bytes ":vztmpl/")
    then (oci, v ∷ vz)
    else (oci, vz)

-- The first volume in whose name the marker begins a path segment.
unfoldable pub first_named : Text → List Text → Option Text
first_named marker [] = none
first_named marker (v ∷ vs) =
    if contains (to_lower v) (b'/' ∷ to_lower marker) then some v else first_named marker vs

-- The switch at the end of `findOCIVolumeID`.
unfoldable pub choose_volume : Text → List Text → List Text → Option Text
choose_volume marker [] [] = none
choose_volume marker [] (v ∷ _) = some v
choose_volume marker (v ∷ []) _ = some v
choose_volume marker (v ∷ (u ∷ vs)) _ = elim (first_named marker (v ∷ (u ∷ vs))) [
  | some w ↦ some w
  | none ↦ some v
]

-- The choice of `findOCIVolumeID` among the volumes of a storage.
unfoldable pub select_volume : Text → List Text → Option Text
select_volume marker items = let (oci, vz) = volume_hits marker items in choose_volume marker oci vz

-- `findOCIVolumeID`
unfoldable pub find_oci_volume_id : Text → Text → Text → Action Text
find_oci_volume_id node_name storage marker = do
  history ← gets (λ w. w.trace)
  perform (Call.storage_content node_name storage)
  items ← gets (λ w. w.env.volumes_on history node_name storage)
  on_option (select_volume marker items)
      (fail (
        pve_not_found
          (bytes "no OCI/vztmpl volume matching " ++ marker ++ bytes " on storage " ++ storage)))
      return

-- `ociRegistryPull`
unfoldable pub oci_registry_pull : Text → Text → Text → Text → Action (Unit {0})
oci_registry_pull node_name storage reference filename = do
  perform (Call.oci_registry_pull node_name storage reference filename)
  end ← wait_for 10 5
  finish_task end (return tt)

-- The lines of `ensureOCIVolume` behind a volume that is not there.
unfoldable pub pull_oci_volume : Text → Text → Text → Text → Action Text
pull_oci_volume node_name storage image filename =
    handle (oci_registry_pull node_name storage image filename)
      (λ e. if oci_artifact_already_exists_error e then return tt else fail e) return
    >> handle (find_oci_volume_id node_name storage filename)
        (λ e. fail (
          wrap
            (bytes "OCI image not on storage "
              ++ storage
              ++ bytes " after pull or existing-file skip: "
              ++ message e)
            e))
        return

-- The first lookup of `ensureOCIVolume`, whose missing or empty volume starts the pull.
unfoldable pub find_or_pull : Text → Text → Text → Text → Action Text
find_or_pull node_name storage image filename =
    handle (find_oci_volume_id node_name storage filename)
      (λ e. if is_pve_not_found e then pull_oci_volume node_name storage image filename else fail e)
      (λ volid.
        if is_nil volid then pull_oci_volume node_name storage image filename else return volid)

-- The storage that `ensureOCIVolume` asks for, or its error.
abbrev pub pull_to : Container → Text → Text → Error ⊎ Text → Action Text
pull_to ct image filename (inl e) = fail e
pull_to ct image filename (inr storage) = find_or_pull ct.spec.node_name storage image filename

-- `ensureOCIVolume`; a nil `Image` is a panic at the first line.
unfoldable pub ensure_oci_volume : Container → Action Text
ensure_oci_volume ct = on_option ct.spec.template.image crash λ image. do
  image_id ← gets (λ w. w.env.image_id)
  pull_to ct image.reference (oci_pull_filename image_id image.reference)
      (oci_artifact_storage ct.spec.template)
