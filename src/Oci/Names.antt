-- ===== src/Oci/Names.antt =====
-- The names that pkg/proxmox/container_oci.go derives from an image reference. The texts are ASCII; a rune
-- beyond it becomes one dash there and several here, which the loop over dashes turns into one. The
-- SHA-256 sum is the argument `image_id`.
use kubemox.Api.{ContainerTemplate}
use kubemox.Base.{
  Bool, List, Text, [], after_last, bytes, collapse_dashes, contains, false, if◌then◌else◌, inl,
  inr, is_dash, is_dash_or_dot, is_nil, is_space, itoa, leb, length, ltb, none, not, replace_byte,
  some, split, strip_suffix, take_bytes, text_eq, to_lower, trim, trim_right, true, ℕ, ◌&&◌, ◌++◌,
  ◌||◌, ◌∷◌, ◌⊎◌,
}
use kubemox.World.Error.{Error, message, other}

abbrev pub oci_template_name_prefix : Text
oci_template_name_prefix = bytes "kubemox-oci-"

-- `ociTemplateHostname`
unfoldable pub oci_template_hostname : (Text → Text) → Text → Text
oci_template_hostname image_id image_ref = oci_template_name_prefix ++ image_id image_ref

-- `TemplateContainerName`
unfoldable pub template_container_name : (Text → Text) → ContainerTemplate → Text
template_container_name image_id t = elim t.image [
  | none ↦ t.name
  | some image ↦
      if not (is_nil image.reference)
      then oci_template_hostname image_id image.reference
      else t.name
]

-- The switch on a rune of `ociReferenceToFileBase`.
unfoldable pub file_base_byte : ℕ → ℕ
file_base_byte r =
    if (leb b'a' r && leb r b'z') || ((leb b'A' r && leb r b'Z') || (leb b'0' r && leb r b'9'))
    then r
    else b'-'

unfoldable pub file_base_bytes : Text → Text
unfolding file_base_byte
file_base_bytes [] = []
file_base_bytes (r ∷ s) = file_base_byte r ∷ file_base_bytes s

-- A text cut to a length; what is cut loses the dashes and dots at its end.
unfoldable pub cut_to : ℕ → Text → Text
cut_to limit s = if ltb limit (length s) then trim_right is_dash_or_dot (take_bytes limit s) else s

-- `ociReferenceToFileBase`
unfoldable pub oci_reference_to_file_base : Text → Text
unfolding file_base_bytes cut_to
oci_reference_to_file_base reference =
    let ref = trim is_space reference in
    if is_nil ref
    then []
    else (to_lower (cut_to 200 (trim is_dash_or_dot (collapse_dashes (file_base_bytes ref)))))

-- `ociPullFilename`
unfoldable pub oci_pull_filename : (Text → Text) → Text → Text
oci_pull_filename image_id image_ref =
    let base = oci_reference_to_file_base image_ref in
    if not (is_nil base) then base else oci_template_name_prefix ++ image_id image_ref

-- `OCIImageProxmoxTag`
unfoldable pub oci_image_proxmox_tag : (Text → Text) → Text → Text
oci_image_proxmox_tag image_id image_ref =
    let ref = trim is_space image_ref in
    let base = oci_reference_to_file_base ref in
    let named = if is_nil base then bytes "x-" ++ image_id ref else base in
    if is_nil ref then [] else cut_to 120 (bytes "img-" ++ named)

-- The loop of `LXCHasOCIImageTag`.
unfoldable pub any_tag : Text → List Text → Bool
any_tag want [] = false
any_tag want (t ∷ ts) = text_eq (trim is_space t) want || any_tag want ts

-- `LXCHasOCIImageTag`
unfoldable pub lxc_has_oci_image_tag : (Text → Text) → Text → Text → Bool
lxc_has_oci_image_tag image_id tags_field image_ref =
    let want = oci_image_proxmox_tag image_id image_ref in
    if is_nil want then false else any_tag want (split b';' tags_field)

-- `firstRootFS`
unfoldable pub first_root_fs : ContainerTemplate → Error ⊎ Text
first_root_fs t = elim t.disk [
  | [] ↦ inl (other (bytes "template.disk is required for OCI-backed containers"))
  | d ∷ _ ↦
      if is_nil d.storage || ltb d.size 1
      then inl (other (bytes "template.disk[0] must set storage and size"))
      else inr (d.storage ++ (b':' ∷ itoa d.size))
]

-- `net0FromSpec`
unfoldable pub net0_from_spec : ContainerTemplate → Text
net0_from_spec t = elim t.network [
  | [] ↦ bytes "name=eth0,bridge=vmbr0,ip=dhcp"
  | n ∷ _ ↦
      let br = if is_nil n.bridge then bytes "vmbr0" else n.bridge in
      bytes "name=eth0,bridge=" ++ br ++ bytes ",ip=dhcp"
]

-- `ociBasenameFromVolid`
unfoldable pub oci_basename_from_volid : Text → Text
oci_basename_from_volid volid = elim (after_last b'/' volid) [ none ↦ volid | some rest ↦ rest ]

-- The loop over the suffixes in `ociStripArchiveExt`.
unfoldable pub strip_first : List Text → Text → Text
strip_first [] name = name
strip_first (suf ∷ rest) name =
    let other_suffixes = strip_first rest name in
    elim (strip_suffix suf name) [ some stem ↦ stem | none ↦ other_suffixes ]

-- `ociStripArchiveExt`
unfoldable pub oci_strip_archive_ext : Text → Text
oci_strip_archive_ext name =
    strip_first (bytes ".tar.zst" ∷ bytes ".tar" ∷ bytes ".tgz" ∷ bytes ".zst" ∷ []) (to_lower name)

-- `ociStemNormalize`
unfoldable pub oci_stem_normalize : Text → Text
oci_stem_normalize s =
    trim is_dash (collapse_dashes (replace_byte b'.' b'-' (to_lower (trim is_space s))))

-- `ociVolMatchesPull`
unfoldable pub oci_vol_matches_pull : Text → Text → Bool
oci_vol_matches_pull volid filename_stem =
    if is_nil filename_stem || is_nil volid
    then false
    else if contains (to_lower volid) (to_lower filename_stem)
    then true
    else text_eq (oci_stem_normalize (oci_strip_archive_ext (oci_basename_from_volid volid)))
        (oci_stem_normalize (to_lower filename_stem))

-- `ociArtifactAlreadyExistsError` on an error that is not nil.
unfoldable pub oci_artifact_already_exists_error : Error → Bool
oci_artifact_already_exists_error e =
    let msg = to_lower (message e) in
    contains msg (bytes "refusing to override") || contains msg (bytes "existing file")

-- `ociArtifactStorage`
unfoldable pub oci_artifact_storage : ContainerTemplate → Error ⊎ Text
oci_artifact_storage t = elim t.image [
  | none ↦ inl (other (bytes "template.image.storage is required when using template.image"))
  | some image ↦
      if is_nil image.storage
      then inl (other (bytes "template.image.storage is required when using template.image"))
      else inr image.storage
]
